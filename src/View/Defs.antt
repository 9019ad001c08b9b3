-- ===== src/View/Defs.antt =====
-- The state and the operations of libmpaxos/view.c.
use mpaxos.Prelude.{
  ℕ, ◌+◌, ◌-◌, subst, ◌%◌, ◌^◌, ◌≡◌, refl, ◌↔◌, Bool, true, false, ◌&&◌, not, Option, none, some,
  List, [], ◌∷◌, ◌++◌, arith, ◌==◌, ltb, if◌then◌else◌, Result, ok, abort, fault, ◌>>=◌, ◌>>◌,
  safe_assert, Dict, get, put, Key, nat_key, length,
}

-- `strcmp`-like equality of byte strings, the keys of `ht_node_info_`.
pub same_text : List ℕ → List ℕ → Bool
same_text [] [] = true
same_text [] (_ ∷ _) = false
same_text (_ ∷ _) [] = false
same_text (c ∷ s) (d ∷ t) = (c == d) && same_text s t

same_text_refl : (s : List ℕ) → same_text s s ≡ true
unfolding same_text
same_text_refl [] = refl
same_text_refl (c ∷ s) = ground (arith, same_text_refl s)

same_text_sound : (s t : List ℕ) → same_text s t ≡ true → s ≡ t
unfolding same_text
same_text_sound [] [] h = refl
same_text_sound [] (_ ∷ _) h = absurd (cc)
same_text_sound (_ ∷ _) [] h = absurd (cc)
same_text_sound (c ∷ s) (d ∷ t) h = ground (arith, same_text_sound s t)

pub same_text_iff : (s t : List ℕ) → (same_text s t ≡ true) ↔ (s ≡ t)
same_text_iff s t =
    (same_text_sound s t, λ e. subst (λ u. same_text s u ≡ true) e (same_text_refl s))

instance abbrev pub text_key : Key (List ℕ)
text_key = record { same = same_text; same_iff = same_text_iff }

-- `node_info_t`
pub record NodeInfo : Type 0 where
  pub nid : ℕ
  pub port : ℕ
  pub name : List ℕ
  pub ip : List ℕ

-- The client towards a node, as `set_nid_sender` sets it up.
pub record Client : Type 0 where
  pub ip : List ℕ
  pub port : ℕ

-- The static tables of view.c with `ht_sender_` of comm.c. `last_nid` is the counter of `set_node`,
-- and `local_nid` starts at (nodeid_t)-1. `views` holds pointers to `arr_nodes_`, the only array.
pub record View : Type 0 where
  pub arr_nodes : List ℕ
  pub gid_nid : Dict ℕ (Dict ℕ ℕ)
  pub nid_gid : Dict ℕ (Dict ℕ ℕ)
  pub views : Dict ℕ (Unit {0})
  pub node_info : Dict (List ℕ) NodeInfo
  pub local_nid : ℕ
  pub nodename : Option (List ℕ)
  pub listen_port : ℕ
  pub last_nid : ℕ
  pub senders : Dict ℕ Client

-- `view_init`
abbrev pub view_init : View
view_init = record {
  arr_nodes = [];
  gid_nid = [];
  nid_gid = [];
  views = [];
  node_info = [];
  local_nid = 2 ^ 32 - 1;
  nodename = none;
  listen_port = 0;
  last_nid = 0;
  senders = [];
}

-- `get_group_size`: every node is in every group.
unfoldable pub get_group_size : ℕ → View → ℕ
get_group_size gid v = length v.arr_nodes

-- `is_in_group`
unfoldable pub is_in_group : ℕ → Bool
is_in_group gid = true

-- `strcpy` into `char ip[100]`
abbrev copy_ip : List ℕ → Result (List ℕ)
copy_ip ip = if ltb (length ip) 100 then ok ip else fault

-- `set_nid_sender` (comm.c)
unfoldable pub set_nid_sender : ℕ → List ℕ → ℕ → View → Result View
set_nid_sender nid addr port v = do
  ip ← copy_ip addr
  ok (record v { senders = put v.senders nid (record { ip = ip; port = port }) })

abbrev table_or_new : Option (Dict ℕ ℕ) → Dict ℕ ℕ
table_or_new none = []
table_or_new (some t) = t

-- `set_gid_nid`
unfoldable pub set_gid_nid : ℕ → ℕ → View → View
set_gid_nid gid nid v = record v {
  gid_nid = put v.gid_nid gid (put (table_or_new (get v.gid_nid gid)) nid nid);
  nid_gid = put v.nid_gid nid (put (table_or_new (get v.nid_gid nid)) gid gid);
}

-- `set_node`; the resolver behind `gethostip` is given.
unfoldable pub set_node : (List ℕ → List ℕ) → List ℕ → List ℕ → ℕ → View → Result View
unfolding set_nid_sender set_gid_nid
set_node gethostip name addr port v = do
  let nid = (v.last_nid + 1) % 2 ^ 32
  let ip = gethostip addr
  v1 ← set_nid_sender nid ip port (record v { last_nid = nid })
  let v2 = set_gid_nid 1 nid v1
  safe_assert (ltb (length name + 1) 100)
  safe_assert (ltb (length ip + 1) 100)
  safe_assert (not (nid == 0))
  ok (record v2 {
    node_info = put v2.node_info name (record { nid = nid; port = port; name = name; ip = ip });
    arr_nodes = v2.arr_nodes ++ nid ∷ [];
  })

-- `set_nodename`
unfoldable pub set_nodename : List ℕ → View → Result View
set_nodename name v = elim (get v.node_info name) [
  | none ↦ abort
  | some n ↦ ok (record v { local_nid = n.nid; listen_port = n.port; nodename = some name })
]

-- `get_view`. The key under which a view is entered is never written: it is whatever `apr_palloc`
-- returned, here `garbage`. Either way the array is `arr_nodes_`, as the code asserts.
unfoldable pub get_view : ℕ → ℕ → View → Result (View × List ℕ)
get_view garbage gid v = elim (get v.views gid) [
  | some _ ↦ ok (v, v.arr_nodes)
  | none ↦ ok (record v { views = put v.views garbage tt }, v.arr_nodes)
]
