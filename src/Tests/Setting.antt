-- ===== src/Tests/Setting.antt =====
-- The surroundings that the tests run in: peers whose swarms count their identifiers, whose texts are
-- encoded as the numbers of their characters, and whose acts all succeed.
use Prim.Native.Nat.{Ordering, compare}
use Prim.Native.Char.{char, code}
use Prim.Native.String.{[] as empty, ◌∷◌ as ◌▹◌}
use decent_share.Base.{
  ℕ, suc, ◌+◌, ◌<◌, String, ◌≡◌, refl, inl, inr, true, false, [], ◌∷◌, Option, none, some, sym,
  subst, some-eq, ok, ◌==◌, string_eq, if◌then◌else◌, arith,
}
use decent_share.Network.Message.{PeerId, Bytes}
use decent_share.Network.EventLoop.Env.{
  Env, Act, Trace, stored, queried, offer_sent, response_sent, message_sent,
}
use decent_share.Network.EventLoop.Replies.{
  Counter, queries, message_requests, offer_requests, response_requests, Issues, IsIssued, IsFresh,
}
use decent_share.Network.EventLoop.Lookup.{IsDecodable, EncodeAlike}

-- The number of a character, and back.
abbrev Both : Ordering → Ordering → Type 0
Both Ordering.lt Ordering.lt = Unit
Both Ordering.lt Ordering.eq = ⊥
Both Ordering.lt Ordering.gt = ⊥
Both Ordering.eq _ = ⊥
Both Ordering.gt _ = ⊥

abbrev Scalar : Ordering → Ordering → Ordering → Type 0
Scalar Ordering.lt o p = Unit
Scalar Ordering.eq o p = Both o p
Scalar Ordering.gt o p = Both o p

abbrev both : (o p : Ordering) → Option (Both o p)
both Ordering.lt Ordering.lt = some tt
both Ordering.lt Ordering.eq = none
both Ordering.lt Ordering.gt = none
both Ordering.eq p = none
both Ordering.gt p = none

abbrev scalar : (n o p : Ordering) → Option (Scalar n o p)
scalar Ordering.lt o p = some tt
scalar Ordering.eq o p = both o p
scalar Ordering.gt o p = both o p

both_lem : (o p : Ordering) (h : Both o p) → both o p ≡ some h
both_lem Ordering.lt Ordering.lt tt = refl
both_lem Ordering.lt Ordering.eq h = absurd h
both_lem Ordering.lt Ordering.gt h = absurd h
both_lem Ordering.eq p h = absurd h
both_lem Ordering.gt p h = absurd h

scalar_lem : (n o p : Ordering) (h : Scalar n o p) → scalar n o p ≡ some h
scalar_lem Ordering.lt o p tt = refl
scalar_lem Ordering.eq o p h = both_lem o p h
scalar_lem Ordering.gt o p h = both_lem o p h

abbrev encode : String → Bytes
encode empty = []
encode (c ▹ s) = code c ∷ encode s

abbrev prepend :
    (n : ℕ)
    → Option (Scalar (compare n 55296) (compare 57343 n) (compare n 1114112))
    → Option String
    → Option String
prepend n none rest = none
prepend n (some h) none = none
prepend n (some h) (some s) = some (char n h ▹ s)

abbrev decode : Bytes → Option String
decode [] = some ""
decode (n ∷ b) =
    prepend n (scalar (compare n 55296) (compare 57343 n) (compare n 1114112)) (decode b)

abbrev or_empty : Option String → String
or_empty none = ""
or_empty (some s) = s

decode-encode : (s : String) → decode (encode s) ≡ some s
decode-encode empty = refl
decode-encode (char n h ▹ s) =
    rw (decode-encode s, scalar_lem (compare n 55296) (compare 57343 n) (compare n 1114112) h)

abbrev only : Bytes → Option PeerId
only (p ∷ []) = some p
only _ = none

-- Identifiers: larger than all that were given before.
abbrev id_of : Act → ℕ
id_of (stored _ _ (some i)) = i
id_of (queried _ i) = i
id_of (offer_sent _ _ i) = i
id_of (response_sent _ _ i) = i
id_of (message_sent _ _ i) = i
id_of _ = 0

abbrev next : Trace → ℕ
next [] = 1
next (a ∷ t) = suc (id_of a + next t)

id_of_lem : (k : Counter) (id : ℕ) (a : Act) → Issues k id a → id_of a ≡ id
id_of_lem queries id (stored _ _ (some i)) h = h
id_of_lem queries id (queried _ i) h = h
id_of_lem message_requests id (message_sent _ _ i) h = h
id_of_lem offer_requests id (offer_sent _ _ i) h = h
id_of_lem response_requests id (response_sent _ _ i) h = h
id_of_lem _ id _ h = absurd h

issued_below : (k : Counter) (id : ℕ) (t : Trace) → IsIssued k id t → id < next t
issued_below k id [] h = absurd h
issued_below k id (a ∷ t) (inl h) = let e = id_of_lem k id a h in omega arith
issued_below k id (a ∷ t) (inr h) = let e = issued_below k id t h in omega arith

next-unused : (k : Counter) (t : Trace) → ¬ IsIssued k (next t) t
next-unused k t h = let e = issued_below k (next t) t h in omega arith

abbrev lower : String → String
lower s = if s == "Alice" then "alice" else if s == "SEND" then "send" else s

abbrev pub peer : PeerId → Env
peer me = record {
  local_peer_id = me;
  peer_to_bytes = λ p. p ∷ [];
  peer_from_bytes = only;
  ends_with_p2p = λ address p. false;
  with_p2p = λ address p. address + p;
  to_lowercase = lower;
  into_bytes = encode;
  from_utf8 = decode;
  from_utf8_lossy = λ bytes. or_empty (decode bytes);
  parent = λ path. some "trades";
  put_record = λ t key value. some (next t);
  get_record = λ t key. next t;
  send_offer = λ t to offer. next t;
  send_response = λ t to answer. next t;
  send_message = λ t to message. next t;
  publish = λ t text. ok tt;
  succeeds = λ t a. true;
}

pub peer-IsFresh : (me : PeerId) → IsFresh (peer me)
peer-IsFresh me = record {
  put_record = λ t key value id e h.
      next-unused queries t (subst (λ i. IsIssued queries i t) (sym (some-eq e)) h);
  get_record = λ t key. next-unused queries t;
  send_offer = λ t to offer. next-unused offer_requests t;
  send_response = λ t to answer. next-unused response_requests t;
  send_message = λ t to message. next-unused message_requests t;
}

pub peer-IsDecodable : (me : PeerId) → IsDecodable (peer me)
peer-IsDecodable me = record { peer_from_to = λ p. refl; from_into_utf8 = decode-encode }

pub peer-EncodeAlike : (me you : PeerId) → EncodeAlike (peer me) (peer you)
peer-EncodeAlike me you = record { peers = λ p. refl; texts = λ s. refl }
