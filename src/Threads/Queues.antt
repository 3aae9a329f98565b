-- ===== src/Threads/Queues.antt =====
-- Lists of threads whose entries in a table satisfy a predicate, and what a change of the table
-- leaves of it.
use os_project2_nach_os.Base.{
  ℕ, ◌+◌, ◌≡◌, ◌≢◌, refl, sym, ap, subst, fun_ext, List, [], ◌∷◌, ◌++◌, ◌==◌, Bool-cases, inl, inr,
  arith,
}
use os_project2_nach_os.Threads.{put}

abbrev pub NotIn : ℕ → List ℕ → Type 0
NotIn t [] = Unit
NotIn t (u ∷ us) = (u ≢ t) × NotIn t us

abbrev pub Distinct : List ℕ → Type 0
Distinct [] = Unit
Distinct (t ∷ ts) = NotIn t ts × Distinct ts

-- Q holds of the entry of each thread of the list.
abbrev pub Each {ℓ} : {A : Type ℓ} → (A → Type 0) → (ℕ → A) → List ℕ → Type 0
Each Q f [] = Unit
Each Q f (t ∷ ts) = Q (f t) × Each Q f ts

pub NotIn-append : (t : ℕ) (ts : List ℕ) (u : ℕ) → NotIn t ts → u ≢ t → NotIn t (ts ++ (u ∷ []))
NotIn-append t [] u out ne = (ne, tt)
NotIn-append t (x ∷ xs) u out ne = (out.0, NotIn-append t xs u out.1 ne)

pub Distinct-append : (ts : List ℕ) (u : ℕ) → Distinct ts → NotIn u ts → Distinct (ts ++ (u ∷ []))
Distinct-append [] u d out = (tt, tt)
Distinct-append (x ∷ xs) u d out =
    (NotIn-append x xs u d.0 (λ e. out.0 (sym e)), Distinct-append xs u d.1 out.1)

module _ {ℓ} {A : Type ℓ} where
  pub put_same : (f : ℕ → A) (t : ℕ) (a : A) → put f t a t ≡ a
  put_same f t a = elim (Bool-cases (t == t)) [
    | inl e ↦ rw (e)
    | inr e ↦ absurd (let never : ⊥ = ground (arith, e) in never)
  ]

  pub put_other : (f : ℕ → A) (t : ℕ) (a : A) (u : ℕ) → u ≢ t → put f t a u ≡ f u
  put_other f t a u ne = elim (Bool-cases (u == t)) [
    | inl e ↦ absurd (ne (ground (arith, e)))
    | inr e ↦ rw (e)
  ]

  pub put-put : (f : ℕ → A) (t : ℕ) (a b : A) → put (put f t a) t b ≡ put f t b
  put-put f t a b = fun_ext (λ u. elim (Bool-cases (u == t)) [ inl e ↦ rw (e) | inr e ↦ rw (e) ])

  -- What holds of the new entry and of each of the others holds of each.
  pub put-each {κ} :
      (P : ℕ → A → Type κ) (f : ℕ → A) (t : ℕ) (a : A)
      → P t a
      → ((u : ℕ) → u ≢ t → P u (f u))
      → (u : ℕ) → P u (put f t a u)
  put-each P f t a new old u = elim (Bool-cases (u == t)) [
    | inl e ↦
        let q : u ≡ t = ground (arith, e) in
        subst (λ x. P x (put f t a x)) (sym q) (subst (P t) (sym (put_same f t a)) new)
    | inr e ↦
        let ne : u ≢ t = (λ q. absurd (let z : ⊥ = ground (arith, e, q) in z)) in
        subst (P u) (sym (put_other f t a u ne)) (old u ne)
  ]

  -- Two entries that differ are of two threads.
  pub entries-ne : (f : ℕ → A) (Q : A → Type 0) {t u : ℕ} → Q (f u) → ¬ Q (f t) → u ≢ t
  entries-ne f Q q never e = never (subst (λ x. Q (f x)) e q)

  pub Each-NotIn :
      (f : ℕ → A) (Q : A → Type 0) (t : ℕ) (ts : List ℕ) → ¬ Q (f t) → Each Q f ts → NotIn t ts
  Each-NotIn f Q t [] never each = tt
  Each-NotIn f Q t (u ∷ us) never each =
      (entries-ne f Q each.0 never, Each-NotIn f Q t us never each.1)

  pub Each-put :
      (f : ℕ → A) (Q : A → Type 0) (t : ℕ) (a : A) (ts : List ℕ)
      → NotIn t ts
      → Each Q f ts
      → Each Q (put f t a) ts
  Each-put f Q t a [] out each = tt
  Each-put f Q t a (u ∷ us) out each =
      (subst Q (sym (put_other f t a u out.0)) each.0, Each-put f Q t a us out.1 each.1)

  -- A thread that does not satisfy Q is not in the list, so its entry may change.
  pub Each-put_elsewhere :
      (f : ℕ → A) (Q : A → Type 0) (t : ℕ) (a : A) (ts : List ℕ)
      → ¬ Q (f t)
      → Each Q f ts
      → Each Q (put f t a) ts
  Each-put_elsewhere f Q t a ts never each =
      Each-put f Q t a ts (Each-NotIn f Q t ts never each) each

  pub Each-append :
      (f : ℕ → A) (Q : A → Type 0) (ts : List ℕ) (t : ℕ)
      → Each Q f ts
      → Q (f t)
      → Each Q f (ts ++ (t ∷ []))
  Each-append f Q [] t each q = (q, tt)
  Each-append f Q (u ∷ us) t each q = (each.0, Each-append f Q us t each.1 q)

  -- The sum of a weight over the list.
  abbrev pub total : (A → ℕ) → (ℕ → A) → List ℕ → ℕ
  total w f [] = 0
  total w f (t ∷ ts) = w (f t) + total w f ts

  pub total-append :
      (w : A → ℕ) (f : ℕ → A) (ts : List ℕ) (t : ℕ)
      → total w f (ts ++ (t ∷ [])) ≡ total w f ts + w (f t)
  total-append w f [] t = omega arith
  total-append w f (u ∷ us) t = omega (arith, total-append w f us t)

  pub total-put :
      (w : A → ℕ) (f : ℕ → A) (t : ℕ) (a : A) (ts : List ℕ)
      → NotIn t ts
      → total w (put f t a) ts ≡ total w f ts
  total-put w f t a [] out = refl
  total-put w f t a (u ∷ us) out =
      let here = ap w (put_other f t a u out.0) in
      let there = total-put w f t a us out.1 in omega (arith, here, there)
