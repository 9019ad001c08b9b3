-- ===== src/Tests/Sockets.antt =====
-- A pollset and a socket that do what APR documents, to run the connections on.
use mpaxos.Prelude.{
  ℕ, zero, suc, ◌≤◌, ◌<◌, ◌≡◌, refl, sym, ap, ◌∙◌, true, false, none, some, some-injective, List,
  [], ◌∷◌, ◌++◌, arith, length, take, drop, take-drop, Dict, get, put, del, get-put, get-del,
  nat_key,
}
use mathlib.Core.List.{append-nil}
use mpaxos.Rpc.Polling.{Events, Pollset}
use mpaxos.Rpc.Polling.Jobs.{TakesBack}
use mpaxos.Rpc.Buf.{Status, success, eagain, other_error, is_success, Socket}

pub get-nil : (fd : ℕ) → get (let d : Dict ℕ Events = [] in d) fd ≡ none
unfolding get
get-nil fd = refl

-- The descriptors and their events, in a table.
instance abbrev pub table_pollset : Pollset (Dict ℕ Events)
table_pollset = record {
  create = [];
  add = λ s fd e. some (put s fd e);
  remove = λ s fd. some (del s fd);
  polls = get;
  polls-create = λ fd. get-nil fd;
  polls-add = λ s s' fd j e h. ap (λ t. get t j) (sym (some-injective _ _ h)) ∙ get-put s fd j e;
  polls-remove = λ s s' fd j h. ap (λ t. get t j) (sym (some-injective _ _ h)) ∙ get-del s fd j;
  remove_polled = λ s fd h. (del s fd, refl);
}

pub table_back : TakesBack table_pollset
table_back s s' fd e h = (put s' fd e, refl)

-- What arrived at a socket and what was handed to it.
pub record Pipe : Type 0 where
  pub arrived : List ℕ
  pub taken : List ℕ

abbrev recv_of : List ℕ → ℕ → Status × List ℕ × List ℕ
recv_of [] n = (eagain, [], [])
recv_of (x ∷ xs) zero = (other_error, [], x ∷ xs)
recv_of (x ∷ xs) (suc n) = (success, take (suc n) (x ∷ xs), drop (suc n) (x ∷ xs))

abbrev pub pipe_recv : Pipe → ℕ → Status × List ℕ × Pipe
pipe_recv k n =
    let (status, bytes, rest) = recv_of k.arrived n in (status, bytes, record k { arrived = rest })

-- A send takes at most three bytes.
abbrev pub pipe_send : Pipe → List ℕ → Status × ℕ × Pipe
pipe_send k [] = (eagain, 0, k)
pipe_send k (x ∷ xs) =
    (success, length (take 3 (x ∷ xs)), record k { taken = k.taken ++ take 3 (x ∷ xs) })

length-take_le : (n : ℕ) (xs : List ℕ) → (length (take n xs) ≤ n) × (length (take n xs) ≤ length xs)
length-take_le zero xs = omega arith
length-take_le (suc n) [] = omega arith
length-take_le (suc n) (x ∷ xs) = omega (arith, length-take_le n xs)

take-length-take : (n : ℕ) (xs : List ℕ) → take (length (take n xs)) xs ≡ take n xs
take-length-take zero xs = refl
take-length-take (suc n) [] = refl
take-length-take (suc n) (x ∷ xs) = ap (◌∷◌ x) (take-length-take n xs)

pub recv_whole : (bytes : List ℕ) (n : ℕ) → bytes ≡ (recv_of bytes n).1 ++ (recv_of bytes n).2
recv_whole [] n = refl
recv_whole (x ∷ xs) zero = refl
recv_whole (x ∷ xs) (suc n) = sym (take-drop (suc n) (x ∷ xs))

pub recv_fit : (bytes : List ℕ) (n : ℕ) → length (recv_of bytes n).1 ≤ n
recv_fit [] n = omega arith
recv_fit (x ∷ xs) zero = omega arith
recv_fit (x ∷ xs) (suc n) = (length-take_le (suc n) (x ∷ xs)).0

pub recv_any :
    (bytes : List ℕ) (n : ℕ)
    → is_success (recv_of bytes n).0 ≡ true
    → 0 < length (recv_of bytes n).1
recv_any [] n h = cc
recv_any (x ∷ xs) zero h = cc
recv_any (x ∷ xs) (suc n) h = omega arith

pub recv_last : (bytes : List ℕ) (n : ℕ) → (recv_of bytes n).0 ≡ eagain → (recv_of bytes n).2 ≡ []
recv_last [] n h = refl
recv_last (x ∷ xs) zero h = cc
recv_last (x ∷ xs) (suc n) h = cc

pub pipe_up :
    (k : Pipe) (n : ℕ) → 0 < n → is_success (pipe_recv k n).0 ≡ false → (pipe_recv k n).0 ≡ eagain
pipe_up k n = up_of k.arrived n
  where
    up_of :
        (bytes : List ℕ) (n : ℕ)
        → 0 < n
        → is_success (recv_of bytes n).0 ≡ false
        → (recv_of bytes n).0 ≡ eagain
    up_of [] n pos h = refl
    up_of (x ∷ xs) zero pos h = absurd (omega arith)
    up_of (x ∷ xs) (suc n) pos h = cc

pub pipe_open :
    (k : Pipe) (bytes : List ℕ) → 0 < length bytes → is_success (pipe_send k bytes).0 ≡ true
pipe_open k [] h = absurd (omega arith)
pipe_open k (x ∷ xs) h = refl

pub send_taken :
    (k : Pipe) (bytes : List ℕ)
    → (pipe_send k bytes).2.taken ≡ k.taken ++ take (pipe_send k bytes).1 bytes
send_taken k [] = sym (append-nil k.taken)
send_taken k (x ∷ xs) = ap (◌++◌ k.taken) (sym (take-length-take 3 (x ∷ xs)))

pub send_fit : (k : Pipe) (bytes : List ℕ) → (pipe_send k bytes).1 ≤ length bytes
send_fit k [] = omega arith
send_fit k (x ∷ xs) = (length-take_le 3 (x ∷ xs)).1

pub send_any :
    (k : Pipe) (bytes : List ℕ)
    → is_success (pipe_send k bytes).0 ≡ true
    → 0 < (pipe_send k bytes).1
send_any k [] h = cc
send_any k (x ∷ xs) h = omega arith

instance abbrev pub pipe_socket : Socket Pipe
pipe_socket = record {
  recv = pipe_recv;
  stream = λ k. k.arrived;
  recv_stream = λ k n. recv_whole k.arrived n;
  recv_fits = λ k n. recv_fit k.arrived n;
  recv_some = λ k n. recv_any k.arrived n;
  recv_drained = λ k n. recv_last k.arrived n;
  send = pipe_send;
  sent = λ k. k.taken;
  send_sent = send_taken;
  send_fits = send_fit;
  send_some = send_any;
}
