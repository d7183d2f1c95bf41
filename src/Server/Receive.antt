-- ===== src/Server/Receive.antt =====
-- The loop that receives a request (roles/msp_broker/files/broker/server.py).
use msp_fleet_public.Base.{
  ℕ, ◌+◌, ◌≤◌, Bool, true, false, not, ◌&&◌, ◌||◌, ◌≡◌, refl, ◌∙◌, some, List, [], ◌∷◌, ◌++◌, arith,
  ltb, leb, nat_eq, all, any, length, Bool-cases, inl, inr,
}
use msp_fleet_public.Server.{max_request, has_newline, receive}

length-append : (l m : List ℕ) → length (l ++ m) ≡ length l + length m
length-append [] m = omega arith
length-append (x ∷ l) m = ground (arith, length-append l m)

any-append : (q : ℕ → Bool) (l m : List ℕ) → any q (l ++ m) ≡ (any q l || any q m)
any-append q [] m = refl
any-append q (x ∷ l) m = ground (arith, any-append q l m)

-- how many bytes arrive
abbrev pub total : List (List ℕ) → ℕ
total [] = 0
total (chunk ∷ chunks) = length chunk + total chunks

-- a chunk of the size that `recv` is asked for
abbrev is_chunk : List ℕ → Bool
is_chunk chunk = leb 1 (length chunk) && leb (length chunk) 65536

-- What is received when the loop ends with bytes.
pub record Received (bytes : List ℕ) (chunks : List (List ℕ)) : Type 0 where
  pub data_at_end : List ℕ
  pub ends : receive bytes chunks ≡ some data_at_end
  pub complete : has_newline data_at_end || ltb max_request (length data_at_end) ≡ true
  pub bounded : length data_at_end ≤ max_request + 65536

-- The test of the loop.
abbrev goes_on : List ℕ → Bool
goes_on bytes = not (has_newline bytes) && leb (length bytes) max_request

receive-more :
    (bytes chunk : List ℕ) (chunks : List (List ℕ))
    → goes_on bytes ≡ true
    → is_chunk chunk ≡ true
    → receive bytes (chunk ∷ chunks) ≡ receive (bytes ++ chunk) chunks
unfolding receive
receive-more bytes chunk chunks e h = ground arith

receive-done :
    (bytes : List ℕ) (chunks : List (List ℕ))
    → goes_on bytes ≡ false
    → receive bytes chunks ≡ some bytes
unfolding receive
receive-done bytes [] e = ground arith
receive-done bytes (chunk ∷ chunks) e = ground arith

small : (bytes : List ℕ) → goes_on bytes ≡ true → length bytes ≤ max_request
small bytes e = ground arith

done :
    (bytes : List ℕ)
    → goes_on bytes ≡ false
    → has_newline bytes || ltb max_request (length bytes) ≡ true
done bytes e = ground arith

sizes : (chunk : List ℕ) → is_chunk chunk ≡ true → (1 ≤ length chunk) × (length chunk ≤ 65536)
sizes chunk h = ground arith

-- A newline arrives, or more bytes than the limit.
abbrev is_enough : List ℕ → List (List ℕ) → Bool
is_enough bytes chunks =
    has_newline bytes || any has_newline chunks || ltb max_request (length bytes + total chunks)

enough_behind :
    (bytes chunk : List ℕ) (chunks : List (List ℕ))
    → is_enough bytes (chunk ∷ chunks) ≡ true
    → is_enough (bytes ++ chunk) chunks ≡ true
enough_behind bytes chunk chunks l =
    rw (any-append (λ c. nat_eq c b'\n') bytes chunk, length-append bytes chunk) (ground arith)

still_small :
    (bytes chunk : List ℕ)
    → goes_on bytes ≡ true
    → is_chunk chunk ≡ true
    → length (bytes ++ chunk) ≤ max_request + 65536
still_small bytes chunk e h =
    let small_now = small bytes e in
    let size = sizes chunk h in rw (length-append bytes chunk) (omega (arith, size.1, small_now))

receive_from-Received :
    (bytes : List ℕ) (chunks : List (List ℕ))
    → all is_chunk chunks ≡ true
    → length bytes ≤ max_request + 65536
    → is_enough bytes chunks ≡ true
    → Received bytes chunks
receive_from-Received bytes [] h k l =
    let e : goes_on bytes ≡ false = ground arith in
    record {
      data_at_end = bytes;
      ends = receive-done bytes [] e;
      complete = done bytes e;
      bounded = k;
    }
receive_from-Received bytes (chunk ∷ chunks) h k l = elim (Bool-cases (goes_on bytes)) [
  | inl e ↦
      let r =
        receive_from-Received (bytes ++ chunk) chunks (ground arith)
          (still_small bytes chunk e (ground arith)) (enough_behind bytes chunk chunks l) in
      record {
        data_at_end = r.data_at_end;
        ends = receive-more bytes chunk chunks e (ground arith) ∙ r.ends;
        complete = r.complete;
        bounded = r.bounded;
      }
  | inr e ↦ record {
    data_at_end = bytes;
    ends = receive-done bytes (chunk ∷ chunks) e;
    complete = done bytes e;
    bounded = k;
  }
]

-- The loop ends with bytes: if chunks of 1 to 65536 bytes arrive, and a newline is among them or more
-- than 1048576 bytes arrive in all, then it stops with at most 1114112 bytes, which have a newline or
-- are more than 1048576.
pub receive-Received :
    (chunks : List (List ℕ))
    → all is_chunk chunks ≡ true
    → (any has_newline chunks || ltb max_request (total chunks)) ≡ true
    → Received [] chunks
receive-Received chunks h l = receive_from-Received [] chunks h (ground arith) (ground arith)
