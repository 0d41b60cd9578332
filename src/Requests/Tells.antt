-- ===== src/Requests/Tells.antt =====
-- How the answer to a request tells the end of the call that it made.
use cs.Base.{ℕ, ◌≡◌, refl, sym, ap, subst, List, [], ◌∷◌, if◌then◌else◌, ◌==◌, arith}
use cs.Db.Monad.{Result, ok, err, Db, M, ◌>>=◌, pure}
use cs.Unbox.{err_insufficient_funds}
use cs.Requests.{Body, Response, error_response, success_response, answer, outcome, respond}
use cs.Requests.Market.{buy_error, map_unbox_error}

-- The response and the database that a call ends with.
abbrev pub Answer :
    {A : Type 0} → ℕ → (ℕ → ℕ) → ℕ → (A → Body) → Result A × Db → Result Response × Db
Answer request code response body (r, d) = (ok (answer request code response body r), d)

pub respond_lem :
    {A : Type 0} (request : ℕ) (code : ℕ → ℕ) (response : ℕ) (body : A → Body) (m : M A) (d : Db)
    → respond request code response body m d ≡ Answer request code response body (m d)
unfolding respond outcome ◌>>=◌ pure
respond_lem request code response body m d = refl

-- The protocol's table of a kind of request: the code that is sent for a result -n, and 13,
-- ERR_DATABASE_ERROR, for one that is not in it.
abbrev pub code_in : List (ℕ × ℕ) → ℕ → ℕ
code_in [] n = 13
code_in ((k, code) ∷ codes) n = if n == k then code else code_in codes n

-- No such listing, sold, the buyer's own, no such user, too little money, no such seller.
abbrev pub buy_codes : List (ℕ × ℕ)
buy_codes = (1, 4) ∷ (2, 4) ∷ (3, 5) ∷ (4, 4) ∷ (5, 3) ∷ (6, 4) ∷ []

-- A parameter that is 0, no such case, no such user, too little money (which `unbox_case` returns as
-- a positive code).
abbrev pub unbox_codes : List (ℕ × ℕ)
unbox_codes = (1, 12) ∷ (2, 4) ∷ (3, 4) ∷ (err_insufficient_funds, 3) ∷ []

-- A call and the handler that makes it: the handler leaves the database that the call does, and
-- answers with a success of the type `response` exactly where the call succeeds, and otherwise with
-- an error of the type `request` and the code for the result of the call.
abbrev pub Tells :
    {A : Type 0} → ℕ → ℕ → (ℕ → ℕ) → (A → Body) → Result A × Db → Result Response × Db → Type 0
Tells request response code body (ok a, d) (r, d') =
    (r ≡ ok (success_response response (body a))) × (d' ≡ d)
Tells request response code body (err n, d) (r, d') =
    (r ≡ ok (error_response request (code n))) × (d' ≡ d)

Answer-Tells :
    {A : Type 0} (request response : ℕ) (code code' : ℕ → ℕ) (body : A → Body) (r : Result A)
    (d : Db)
    → ((n : ℕ) → code n ≡ code' n)
    → Tells request response code' body (r, d) (Answer request code response body (r, d))
Answer-Tells request response code code' body (ok a) d same = (refl, refl)
Answer-Tells request response code code' body (err n) d same =
    (ap (λ c. ok (error_response request c)) (same n), refl)

pub respond-Tells :
    {A : Type 0} (request response : ℕ) (code code' : ℕ → ℕ) (body : A → Body) (m : M A) (d : Db)
    → ((n : ℕ) → code n ≡ code' n)
    → Tells request response code' body (m d) (respond request code response body m d)
respond-Tells request response code code' body m d same =
    subst (Tells request response code' body (m d))
      (sym (respond_lem request code response body m d))
      (let (r, d') = m d in Answer-Tells request response code code' body r d' same)

pub buy_error-in : (n : ℕ) → buy_error n ≡ code_in buy_codes n
buy_error-in n = ground arith

pub map_unbox_error-in : (n : ℕ) → map_unbox_error n ≡ code_in unbox_codes n
map_unbox_error-in n = ground arith
