-- ===== src/Wire/Pieces.antt =====
-- What the two loops over a socket do with the pieces of a text.
use cs.Base.{
  ℕ, zero, suc, ◌-◌, ◌≤◌, ◌<◌, ◌≡◌, refl, sym, ap, subst, ◌∙◌, inl, inr, true, false, Option, some,
  List, [], ◌∷◌, ◌++◌, leb, ◌==◌, length, length-append, take, drop, take-append-drop, arith,
  Bool-cases,
}
use cs.Wire.{
  Message, encode_header, Received, chunk, interrupted, failed, Sent, accepts, retry, broken,
  is_empty, prepend, recv_all, Sending, sent_before, send_all, stamped, then_payload, send_response,
}

-- The bytes that arrive.
abbrev pub bytes_of : List Received → List ℕ
bytes_of [] = []
bytes_of (chunk c ∷ es) = c ++ bytes_of es
bytes_of (interrupted ∷ es) = bytes_of es
bytes_of (failed ∷ es) = bytes_of es

-- The connection stays open: no chunk is empty, and no `recv` fails.
abbrev pub Open : List Received → Type 0
Open [] = Unit {0}
Open (chunk c ∷ es) = (is_empty c ≡ false) × Open es
Open (interrupted ∷ es) = Open es
Open (failed ∷ es) = ⊥

-- What arrives is received: the first bytes are returned, the others stay.
abbrev Takes : List ℕ → List ℕ → Option (List ℕ × List Received) → Type 0
Takes a b o = (rest : List Received) × ((o ≡ some (a, rest)) × (Open rest × (bytes_of rest ≡ b)))

append_cancel : (c x y : List ℕ) → c ++ x ≡ c ++ y → x ≡ y
append_cancel [] x y h = h
append_cancel (k ∷ c) x y h = append_cancel c x y (ap (drop 1) h)

-- Two ways to cut the same bytes.
split_short :
    (c x a b : List ℕ)
    → c ++ x ≡ a ++ b
    → length c ≤ length a
    → (a' : List ℕ) × ((a ≡ c ++ a') × (x ≡ a' ++ b))
split_short [] x a b e h = (a, (refl, e))
split_short (k ∷ c) x [] b e h = absurd (omega arith)
split_short (k ∷ c) x (j ∷ a) b e h =
    let (a', (is, rest)) = split_short c x a b (ap (drop 1) e) (omega arith) in
    (a', (ground arith, rest))

split_long :
    (c x a b : List ℕ)
    → c ++ x ≡ a ++ b
    → length a < length c
    → (take (length a) c ≡ a)
      × ((drop (length a) c ++ x ≡ b) × (is_empty (drop (length a) c) ≡ false))
split_long [] x a b e h = absurd (omega arith)
split_long (k ∷ c) x [] b e h = (refl, (e, refl))
split_long (k ∷ c) x (j ∷ a) b e h =
    let (t, (d, n)) = split_long c x a b (ap (drop 1) e) (omega arith) in (ground arith, (d, n))

not_zero : (n : ℕ) → (suc n == 0) ≡ false
not_zero n = ground arith

prepend-Takes :
    (c a b : List ℕ) (o : Option (List ℕ × List Received))
    → Takes a b o
    → Takes (c ++ a) b (prepend c o)
prepend-Takes c a b o (rest, (is, h)) = (rest, (ap (prepend c) is, h))

recv_nothing :
    (b : List ℕ) (es : List Received) → Open es → bytes_of es ≡ b → Takes [] b (recv_all 0 es)
unfolding recv_all
recv_nothing b [] o e = ([], (refl, (o, e)))
recv_nothing b (chunk c ∷ es) o e = (chunk c ∷ es, (refl, (o, e)))
recv_nothing b (interrupted ∷ es) o e = (interrupted ∷ es, (refl, (o, e)))
recv_nothing b (failed ∷ es) o e = absurd o

pub recv_all-Takes :
    (a b : List ℕ) (es : List Received)
    → Open es
    → bytes_of es ≡ a ++ b
    → Takes a b (recv_all (length a) es)
unfolding recv_all
recv_all-Takes [] b es o e = recv_nothing b es o e
recv_all-Takes (x ∷ a) b [] o e = ground arith
recv_all-Takes (x ∷ a) b (interrupted ∷ es) o e =
    rw (not_zero (length a)) (recv_all-Takes (x ∷ a) b es o e)
recv_all-Takes (x ∷ a) b (failed ∷ es) o e = absurd o
recv_all-Takes (x ∷ a) b (chunk c ∷ es) (n, o) e =
    rw (not_zero (length a), n)
      (elim (Bool-cases (leb (length c) (suc (length a)))) [
        | inl short ↦ rw short (
            let (a', (is, left)) = split_short c (bytes_of es) (x ∷ a) b e (ground arith) in
            let taken =
              prepend-Takes c a' b (recv_all (length a') es) (recv_all-Takes a' b es o left) in
            let count : suc (length a) - length c ≡ length a' =
              let all = ap length is in omega (arith, length-append c a') in
            subst (λ k. Takes (x ∷ a) b (prepend c (recv_all k es))) (sym count)
              (subst (λ l. Takes l b (prepend c (recv_all (length a') es))) (sym is) taken))
        | inr long ↦ rw long (
            let (first, (left, more)) = split_long c (bytes_of es) (x ∷ a) b e (ground arith) in
            (
              chunk (drop (suc (length a)) c) ∷ es,
              (ap (λ l. some (l, chunk (drop (suc (length a)) c) ∷ es)) first, ((more, o), left)),
            ))
      ])

-- All of a text has been sent where the loop succeeds.
abbrev pub AllSent : List ℕ → Sending → Type 0
AllSent bytes (false, (l, es)) = Unit {0}
AllSent bytes (true, (l, es)) = l ≡ bytes

sent_before-AllSent :
    (c l bytes : List ℕ) (r : Sending)
    → c ++ l ≡ bytes
    → AllSent l r
    → AllSent bytes (sent_before c r)
sent_before-AllSent c l bytes (false, (k, es)) e h = tt
sent_before-AllSent c l bytes (true, (k, es)) e h = ap (λ m. c ++ m) h ∙ e

send_all-AllSent : (bytes : List ℕ) (es : List Sent) → AllSent bytes (send_all bytes es)
unfolding send_all
send_all-AllSent [] es = refl
send_all-AllSent (b ∷ l) [] = tt
send_all-AllSent (b ∷ l) (accepts zero ∷ es) = tt
send_all-AllSent (b ∷ l) (accepts (suc n) ∷ es) =
    sent_before-AllSent (b ∷ take n l) (drop n l) (b ∷ l) (send_all (drop n l) es)
      (ap (λ m. b ∷ m) (take-append-drop n l)) (send_all-AllSent (drop n l) es)
send_all-AllSent (b ∷ l) (retry ∷ es) = send_all-AllSent (b ∷ l) es
send_all-AllSent (b ∷ l) (broken ∷ es) = tt

then_payload-AllSent :
    (header payload : List ℕ) (r : Sending)
    → AllSent header r
    → AllSent (header ++ payload) (then_payload payload r)
then_payload-AllSent header payload (false, (l, es)) h = tt
then_payload-AllSent header payload (true, (l, es)) h =
    sent_before-AllSent l payload (header ++ payload) (send_all payload es)
      (ap (λ k. k ++ payload) h) (send_all-AllSent payload es)

pub send_response-AllSent :
    (m : Message) (es : List Sent)
    → AllSent (encode_header (stamped m).header ++ m.payload) (send_response m es)
unfolding send_response stamped
send_response-AllSent m es =
    then_payload-AllSent _ m.payload _ (send_all-AllSent (encode_header (stamped m).header) es)
