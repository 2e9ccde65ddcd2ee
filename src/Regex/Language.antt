-- ===== src/Regex/Language.antt =====
-- What a regular expression means, apart from how it is matched: `Runs r s t` says that `r` can
-- read a prefix of `s` and leave `t`. The matcher agrees with it in both directions.
use devops_agent.Prelude.{
  ℕ, zero, suc, ◌≡◌, refl, ap, ◌⊎◌, inl, inr, Bool, true, false, [], ◌∷◌, ◌++◌, arith, All,
  All-append, All-map, append_assoc, and-eq-true, or-eq-true, or-true_right,
}
use devops_agent.Text.{Text}
use devops_agent.Regex.{
  Regex, empty, cls, seq, alt, upto, star, not_ahead, next_is, match_cls, match_star, match_upto,
  match,
}

module _ (R : Text → Text → Type 0) where
  -- at most n readings, one after the other
  abbrev pub RunsUpto : ℕ → Text → Text → Type 0
  RunsUpto zero s t = s ≡ t
  RunsUpto (suc n) s t = (s ≡ t) ⊎ ((m : Text) × R s m × RunsUpto n m t)

abbrev pub Runs : Regex → Text → Text → Type 0
Runs empty s t = s ≡ t
Runs (cls p) s t = (c : ℕ) × (s ≡ c ∷ t) × (p c ≡ true)
Runs (seq a b) s t = (m : Text) × Runs a s m × Runs b m t
Runs (alt a b) s t = Runs a s t ⊎ Runs b s t
Runs (upto n r) s t = RunsUpto (Runs r) n s t
Runs (star p) s t = (w : Text) × (s ≡ w ++ t) × All (λ c. p c ≡ true) w
Runs (not_ahead p) s t = (s ≡ t) × (next_is p s ≡ false)

-- the matcher accepted through a reading
abbrev pub Reads : (Text → Text → Type 0) → (Text → Bool) → Text → Type 0
Reads R k s = (t : Text) × R s t × (k t ≡ true)

match_star_sound :
    (p : ℕ → Bool) (k : Text → Bool) (s : Text)
    → match_star p k s ≡ true
    → Reads (Runs (star p)) k s
unfolding match_star
match_star_sound p k [] h = ([], ([], refl, tt), h)
match_star_sound p k (c ∷ s) h = elim (or-eq-true _ _ h) [
  | inl now ↦ (c ∷ s, ([], refl, tt), now)
  | inr later ↦
      let (pc, rest) = and-eq-true _ _ later in
      let (t, (w, e, ok), kt) = match_star_sound p k s rest in
      (t, (c ∷ w, ap (λ r. c ∷ r) e, (pc, ok)), kt)
]

match_star_complete :
    (p : ℕ → Bool) (k : Text → Bool) (w t : Text)
    → All (λ c. p c ≡ true) w
    → k t ≡ true
    → match_star p k (w ++ t) ≡ true
unfolding match_star
match_star_complete p k [] [] ok kt = kt
match_star_complete p k [] (c ∷ t) ok kt = rw kt
match_star_complete p k (c ∷ w) t ok kt =
    or-true_right (k (c ∷ w ++ t)) _ (rw (ok.0) (match_star_complete p k w t ok.1 kt))

module _ (m : (Text → Bool) → Text → Bool) (R : Text → Text → Type 0) where
  match_upto_sound :
      ((k : Text → Bool) (s : Text) → m k s ≡ true → Reads R k s)
      → (n : ℕ) (k : Text → Bool) (s : Text) → match_upto m n k s ≡ true
      → Reads (RunsUpto R n) k s
  unfolding match_upto
  match_upto_sound step zero k s h = (s, refl, h)
  match_upto_sound step (suc n) k s h = elim (or-eq-true _ _ h) [
    | inl now ↦ (s, inl refl, now)
    | inr later ↦
        let (s', r, h') = step _ s later in
        let (t, rs, kt) = match_upto_sound step n k s' h' in (t, inr (s', r, rs), kt)
  ]

  match_upto_complete :
      ((k : Text → Bool) (s t : Text) → R s t → k t ≡ true → m k s ≡ true)
      → (n : ℕ) (k : Text → Bool) (s t : Text) → RunsUpto R n s t
      → k t ≡ true
      → match_upto m n k s ≡ true
  unfolding match_upto
  match_upto_complete step zero k s t r kt = rw r kt
  match_upto_complete step (suc n) k s t (inl e) kt = rw (e, kt)
  match_upto_complete step (suc n) k s t (inr (s', r, rs)) kt =
      or-true_right (k s) _ (step _ s s' r (match_upto_complete step n k s' t rs kt))

-- What the matcher accepts is a reading of the expression that the continuation accepts.
pub match_sound : (r : Regex) (k : Text → Bool) (s : Text) → match r k s ≡ true → Reads (Runs r) k s
unfolding match
match_sound empty k s h = (s, refl, h)
match_sound (cls p) k [] h = cc
match_sound (cls p) k (c ∷ s) h = let (pc, ks) = and-eq-true _ _ h in (s, (c, refl, pc), ks)
match_sound (seq a b) k s h =
    let (s', ra, h') = match_sound a _ s h in
    let (t, rb, kt) = match_sound b k s' h' in (t, (s', ra, rb), kt)
match_sound (alt a b) k s h = elim (or-eq-true _ _ h) [
  | inl l ↦ let (t, ra, kt) = match_sound a k s l in (t, inl ra, kt)
  | inr l ↦ let (t, rb, kt) = match_sound b k s l in (t, inr rb, kt)
]
match_sound (upto n r) k s h = match_upto_sound (match r) (Runs r) (match_sound r) n k s h
match_sound (star p) k s h = match_star_sound p k s h
match_sound (not_ahead p) k s h = ground (arith, s)

-- Every reading that the continuation accepts is found.
pub match_complete :
    (r : Regex) (k : Text → Bool) (s t : Text) → Runs r s t → k t ≡ true → match r k s ≡ true
unfolding match
match_complete empty k s t e kt = rw e kt
match_complete (cls p) k s t (c, e, pc) kt = rw (e, match_cls, pc) kt
match_complete (seq a b) k s t (s', ra, rb) kt =
    match_complete a _ s s' ra (match_complete b k s' t rb kt)
match_complete (alt a b) k s t (inl r) kt = rw (match_complete a k s t r kt)
match_complete (alt a b) k s t (inr r) kt =
    or-true_right (match a k s) _ (match_complete b k s t r kt)
match_complete (upto n r) k s t rs kt =
    match_upto_complete (match r) (Runs r) (match_complete r) n k s t rs kt
match_complete (star p) k s t (w, e, ok) kt = rw e (match_star_complete p k w t ok kt)
match_complete (not_ahead p) k s t (e, no_dot) kt = rw (no_dot, e) kt

-- every class of the expression is within P
abbrev pub Covers : (ℕ → Type 0) → Regex → Type 0
Covers P empty = Unit
Covers P (cls p) = (c : ℕ) → p c ≡ true → P c
Covers P (seq a b) = Covers P a × Covers P b
Covers P (alt a b) = Covers P a × Covers P b
Covers P (upto n r) = Covers P r
Covers P (star p) = (c : ℕ) → p c ≡ true → P c
Covers P (not_ahead p) = Unit

module _ (P : ℕ → Type 0) where
  abbrev Consumes : Text → Text → Type 0
  Consumes s t = (w : Text) × (s ≡ w ++ t) × All P w

  Consumes-trans : {s m t : Text} → Consumes s m → Consumes m t → Consumes s t
  Consumes-trans {t = t} (v, e, pv) (w, f, pw) =
      (v ++ w, rw (e, f, append_assoc), All-append P v w pv pw)

  RunsUpto-Consumes :
      (R : Text → Text → Type 0)
      → ((s t : Text) → R s t → Consumes s t)
      → (n : ℕ) (s t : Text) → RunsUpto R n s t
      → Consumes s t
  RunsUpto-Consumes R step zero s t e = ([], e, tt)
  RunsUpto-Consumes R step (suc n) s t (inl e) = ([], e, tt)
  RunsUpto-Consumes R step (suc n) s t (inr (m, r, rs)) =
      Consumes-trans (step s m r) (RunsUpto-Consumes R step n m t rs)

  -- A reading consumes code points of the expression's classes only.
  pub Runs-Consumes : (r : Regex) (s t : Text) → Covers P r → Runs r s t → Consumes s t
  Runs-Consumes empty s t c e = ([], e, tt)
  Runs-Consumes (cls p) s t c (x, e, px) = (x ∷ [], e, (c x px, tt))
  Runs-Consumes (seq a b) s t c (m, ra, rb) =
      Consumes-trans (Runs-Consumes a s m c.0 ra) (Runs-Consumes b m t c.1 rb)
  Runs-Consumes (alt a b) s t c (inl r) = Runs-Consumes a s t c.0 r
  Runs-Consumes (alt a b) s t c (inr r) = Runs-Consumes b s t c.1 r
  Runs-Consumes (upto n r) s t c rs =
      RunsUpto-Consumes (Runs r) (λ x y. Runs-Consumes r x y c) n s t rs
  Runs-Consumes (star p) s t c (w, e, ok) = (w, e, All-map _ P w c ok)
  Runs-Consumes (not_ahead p) s t c (e, _) = ([], e, tt)
