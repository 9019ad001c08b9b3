-- ===== src/View/Config.antt =====
-- A configured view: the nodes are numbered from 1 in the order of the configuration, each has a
-- client, and the local node is one of them.
use mpaxos.Prelude.{
  ℕ, zero, suc, ◌+◌, ◌%◌, ◌^◌, ◌≤◌, ◌<◌, ◌≡◌, refl, ap, subst, true, not, some, List, [], ◌∷◌, ◌++◌,
  arith, ◌==◌, lt→ltb, Result, ok, ◌>>=◌, get, put, get-put, nat_key, length, All,
}
use mpaxos.View.Defs.{View, Client, text_key, view_init, set_gid_nid, set_node}

-- A line of the configuration: name, address, port.
pub record NodeLine : Type 0 where
  pub name : List ℕ
  pub addr : List ℕ
  pub port : ℕ

-- The loop of `mpaxos_config_load` over the nodes.
unfoldable pub set_nodes : (List ℕ → List ℕ) → List NodeLine → View → Result View
set_nodes gethostip [] v = ok v
set_nodes gethostip (l ∷ ls) v = do
  v' ← set_node gethostip l.name l.addr l.port v
  set_nodes gethostip ls v'

-- 1, 2, …, n
abbrev pub numbered : ℕ → List ℕ
numbered zero = []
numbered (suc n) = numbered n ++ suc n ∷ []

pub record IsConfigured (n : ℕ) (v : View) : Type 0 where
  pub nodes : v.arr_nodes ≡ numbered n
  pub counter : v.last_nid ≡ n
  pub clients : (nid : ℕ) → 0 < nid → nid ≤ n → (c : Client) × (get v.senders nid ≡ some c)

pub init-IsConfigured : IsConfigured 0 view_init
init-IsConfigured = record {
  nodes = refl;
  counter = refl;
  clients = λ nid p q. absurd (omega arith);
}

-- A line whose name and resolved address leave room for their zero bytes.
abbrev pub IsShort : (List ℕ → List ℕ) → NodeLine → Type 0
IsShort gethostip l = (length l.name < 99) × (length (gethostip l.addr) < 99)

module _ (gethostip : List ℕ → List ℕ) (l : NodeLine) (n : ℕ) (v : View) where
  client : Client
  client = record { ip = gethostip l.addr; port = l.port }

  -- The view after the line.
  pub added : View
  added =
      let base =
        set_gid_nid 1 (suc n)
          (record v { last_nid = suc n; senders = put v.senders (suc n) client }) in
      record base {
        node_info =
            put base.node_info l.name
              (record { nid = suc n; port = l.port; name = l.name; ip = gethostip l.addr });
        arr_nodes = base.arr_nodes ++ suc n ∷ [];
      }

  nonzero : not (suc n == 0) ≡ true
  nonzero = ground arith

  set_node_adds :
      n + 1 < 2 ^ 32
      → IsShort gethostip l
      → v.last_nid ≡ n
      → set_node gethostip l.name l.addr l.port v ≡ ok added
  unfolding set_node client added
  set_node_adds fits short e =
      let next : (v.last_nid + 1) % 2 ^ 32 ≡ suc n = omega arith in
      rw (
        next,
        lt→ltb (length (gethostip l.addr)) 100 (omega arith),
        lt→ltb (length l.name + 1) 100 (omega arith),
        lt→ltb (length (gethostip l.addr) + 1) 100 (omega arith),
        nonzero,
      )

  pub added-IsConfigured : IsConfigured n v → IsConfigured (suc n) added
  unfolding added set_gid_nid client
  added-IsConfigured c = record {
    nodes = ap (λ a. a ++ suc n ∷ []) c.nodes;
    counter = refl;
    clients = λ nid p q. ground (arith, get-put v.senders (suc n) nid client, c.clients nid p);
  }

-- From a configured view of `n` nodes: a configuration with names and addresses of fewer than 99 bytes,
-- with fewer than 2^32 nodes in all, is loaded in full, and the view is again configured: the nodes are
-- numbered on from `n`, and each has a client.
set_nodes-IsConfigured :
    (gethostip : List ℕ → List ℕ) (ls : List NodeLine) (n : ℕ) (v : View)
    → All (IsShort gethostip) ls
    → n + length ls < 2 ^ 32
    → IsConfigured n v
    → (v' : View) × (set_nodes gethostip ls v ≡ ok v') × IsConfigured (n + length ls) v'
unfolding set_nodes
set_nodes-IsConfigured gethostip [] n v short fits c =
    let e : n ≡ n + 0 = omega arith in (v, refl, subst (λ k. IsConfigured k v) e c)
set_nodes-IsConfigured gethostip (l ∷ ls) n v short fits c =
    let e : suc n + length ls ≡ n + suc (length ls) = omega arith in
    let (v', run, c') =
      set_nodes-IsConfigured gethostip ls (suc n) (added gethostip l n v) short.1 (omega arith)
        (added-IsConfigured gethostip l n v c) in
    (
      v',
      rw (set_node_adds gethostip l n v (omega arith) short.0 c.counter) run,
      subst (λ k. IsConfigured k v') e c',
    )
