-- ===== src/Tests/Slots.antt =====
-- Slots: forgotten, managed, allocated, and put under ballots.
use mpaxos.Prelude.{ℕ, ◌+◌, ◌*◌, ◌≡◌, refl, some, List, [], ◌∷◌, arith, ok, get, nat_key, get_elem?}
use mpaxos.Types.{inst_of, success, MsgReply}
use mpaxos.View.{View, view_init}
use mpaxos.View.Config.{NodeLine, added}
use mpaxos.Acceptor.{Acceptor, acceptor_forget, handle_msg_prepare}
use mpaxos.Acceptor.Forget.{forgotten_promise}
use mpaxos.SlotMgr.{last_slot, alloc_slots, alloc_slots-last_slot, given_to}
use mpaxos.Node.{assign_bids}
use mpaxos.Node.Ballots.{assign_bids_lem}
use mpaxos.Tests.Accepting.{prop, rid, prepare, slot}

-- A promise of ballot 9 and a proposal are forgotten, and ballot 2 gets a yes.
forgotten_promise_example :
    (b : Acceptor) × (rep : MsgReply) × (handle_msg_prepare 2
        (prepare 2)
        (acceptor_forget (inst_of (rid 2)) (slot 9 (prop 9 ∷ [])))
      ≡ ok (b, rep))
    × (rep.ress ≡ (record { rid = rid 2; ack = success; props = [] }) ∷ [])
forgotten_promise_example =
    forgotten_promise 2 (prepare 2) (rid 2) (slot 9 (prop 9 ∷ [])) refl refl (omega arith)

abbrev address : List ℕ → List ℕ
address _ = 49 ∷ []

abbrev first_line : NodeLine
first_line = record { name = 110 ∷ []; addr = 104 ∷ []; port = 8001 }

abbrev one_node : View
one_node = added address first_line 0 view_init

alloc_slots-last_slot_example :
    (given_to 1 (alloc_slots (1 ∷ 3 ∷ 1 ∷ []) ((1, 4) ∷ [])).1 ≡ 5 ∷ 6 ∷ [])
    × (last_slot (alloc_slots (1 ∷ 3 ∷ 1 ∷ []) ((1, 4) ∷ [])).0 1 ≡ 6)
unfolding get
alloc_slots-last_slot_example = alloc_slots-last_slot (1 ∷ 3 ∷ 1 ∷ []) 1 ((1, 4) ∷ []) (omega arith)

abbrev slots : List (ℕ × ℕ)
slots = (1, 5) ∷ (4, 1) ∷ []

assign_bids_lem_example : (8 ≡ 2 + 3 * 2) × (get_elem? slots 1 ≡ some (4, 1))
unfolding assign_bids
assign_bids_lem_example =
    assign_bids_lem 3 2 slots 1 (record { gid = 4; sid = 1; bid = 8 }) (omega arith) refl
