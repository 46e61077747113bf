-- ===== src/AccessList/Examples.antt =====
-- Tests of the inspector of accesses, and its theorem at a concrete trace.
use sando_rs.Base.{◌≡◌, refl, false, some, none, List, [], ◌∷◌}
use sando_rs.AccessList.{
  AccessOpcodes, Instruction, new, run, step, contains, insert_slot, modify, touch_slot,
  touch_account, into_access_list,
}
use sando_rs.AccessList.Excluded.{listed, stores_in, some_stores_in, into_access_list-excluded}

abbrev table : AccessOpcodes
table = record {
  storage = 0x54 ∷ 0x55 ∷ [];
  account = 0x3c ∷ 0x3f ∷ 0x3b ∷ 0x31 ∷ 0xff ∷ [];
  calls = 0xf4 ∷ 0xf1 ∷ 0xfa ∷ 0xf2 ∷ [];
}

-- A call of contract 20 reads a slot of it, calls contract 60 and reads the balance of the sender;
-- contract 60 reads a slot twice and calls back.
abbrev trace : List Instruction
trace =
    record { op = 0x54; contract = 20; peek_0 = some 3; peek_1 = none }
    ∷ record { op = 0xf1; contract = 20; peek_0 = some 9; peek_1 = some 60 }
    ∷ record { op = 0x54; contract = 60; peek_0 = some 7; peek_1 = none }
    ∷ record { op = 0x54; contract = 60; peek_0 = some 7; peek_1 = none }
    ∷ record { op = 0xf1; contract = 60; peek_0 = some 9; peek_1 = some 20 }
    ∷ record { op = 0x31; contract = 20; peek_0 = some 10; peek_1 = none }
    ∷ []

accesses :
    into_access_list (run table (new (1 ∷ 2 ∷ []) 10 20) trace) ≡ (20, 3 ∷ []) ∷ (60, 7 ∷ []) ∷ []
unfolding into_access_list run step new contains insert_slot modify touch_slot touch_account
accesses = refl

-- The sender is not in the list, though its balance is read.
into_access_list-excluded_example :
    listed 10 (into_access_list (run table (new (1 ∷ 2 ∷ []) 10 20) trace)) ≡ false
unfolding contains some_stores_in stores_in
into_access_list-excluded_example = into_access_list-excluded table (1 ∷ 2 ∷ []) 10 20 10 trace refl
