-- ===== src/Sensor/Loop.antt =====
-- The loop over descriptors that sensor-collector.c and process2.c both have, for the state and the
-- body of either.
use mathlib.Core.Option.{some-injective}
use communicate_core.Common.{
  ℕ, zero, suc, ◌+◌, ◌≤◌, ◌<◌, ◌≡◌, refl, sym, ap, ◌∙◌, List, [], ◌∷◌, Option, none, some, leb,
  if◌then◌else◌, arith, Bool-cases, inl, inr,
}

-- `for (fd = 0; fd <= iMaxFd; fd++)` with fuel, the first `none` of the pair of options: an
-- iteration may raise `iMaxFd`.
unfoldable pub fd_loop : {S : Type 0} → (S → ℕ) → (S → ℕ → Option S) → ℕ → S → ℕ → Option (Option S)
fd_loop max_fd serve zero c fd = none
fd_loop max_fd serve (suc fuel) c fd =
    if leb fd (max_fd c)
    then elim (serve c fd) [
      | none ↦ some none
      | some next ↦ fd_loop max_fd serve fuel next (fd + 1)
    ]
    else some (some c)

module _ {S : Type 0} (max_fd : S → ℕ) (serve : S → ℕ → Option S) (P : S → Type 0) (m : ℕ)
    (bound : (c : S) → P c → max_fd c ≤ m)
    (step : (c : S) (fd : ℕ) → P c → (next : S) × (serve c fd ≡ some next) × P next) where
  -- With a property that the body keeps and that bounds the maximum, the loop ends.
  pub fd_loop-kept :
      (fuel : ℕ) (c : S) (fd : ℕ)
      → m + 1 < fd + fuel
      → fd ≤ m + 1
      → P c
      → (next : S) × (fd_loop max_fd serve fuel c fd ≡ some (some next)) × P next
  unfolding fd_loop
  fd_loop-kept zero c fd enough low h = absurd (omega arith)
  fd_loop-kept (suc fuel) c fd enough low h = elim (Bool-cases (leb fd (max_fd c))) [
    | inr over ↦ (c, rw over refl, h)
    | inl more ↦
        let (next, done, kept) = step c fd h in
        let (last, rest, held) =
          fd_loop-kept fuel next (fd + 1) (omega arith) (ground (arith, bound c h)) kept in
        (last, rw (more, done) rest, held)
  ]

-- Two loops over states that correspond, as long as their bodies do.
module _ {S T : Type 0} (max_fd : S → ℕ) (serve : S → ℕ → Option S) (other_max : T → ℕ)
    (other : T → ℕ → Option T) (f : S → T) (P : S → Type 0)
    (same_max : (c : S) → other_max (f c) ≡ max_fd c)
    (step : (c : S) (fd : ℕ)
      → P c
      → (next : S) × (serve c fd ≡ some next) × (other (f c) fd ≡ some (f next)) × P next) where
  pub fd_loop-simulated :
      (fuel : ℕ) (c last : S) (fd : ℕ)
      → P c
      → fd_loop max_fd serve fuel c fd ≡ some (some last)
      → fd_loop other_max other fuel (f c) fd ≡ some (some (f last))
  unfolding fd_loop
  fd_loop-simulated zero c last fd h e = absurd (cc e)
  fd_loop-simulated (suc fuel) c last fd h e = elim (Bool-cases (leb fd (max_fd c))) [
    | inr over ↦
        let stopped : fd_loop max_fd serve (suc fuel) c fd ≡ some (some c) = rw over refl in
        let same = some-injective c last (some-injective (some c) (some last) (sym stopped ∙ e)) in
        rw (same_max c, over) (ap (λ d. some (some (f d))) same)
    | inl more ↦
        let (next, done, follows, kept) = step c fd h in
        let unrolled : fd_loop max_fd serve (suc fuel) c fd
            ≡ fd_loop max_fd serve fuel next (fd + 1) =
          rw (more, done) refl in
        rw (same_max c, more, follows)
          (fd_loop-simulated fuel next last (fd + 1) kept (sym unrolled ∙ e))
  ]

-- The outer loop of a thread over what its calls give, an iteration for each.
unfoldable pub thread_loop :
    {S E : Type 0} → (S → E → Option (Option S)) → S → List E → Option (Option S)
thread_loop round s [] = some (some s)
thread_loop round s (e ∷ es) = elim (round s e) [
  | none ↦ none
  | some r ↦ elim r [ none ↦ some none | some next ↦ thread_loop round next es ]
]

abbrev pub AllOf : {E : Type 0} → (E → Type 0) → List E → Type 0
AllOf P [] = Unit {0}
AllOf P (e ∷ es) = P e × AllOf P es

module _ {S E : Type 0} (round : S → E → Option (Option S)) (P : S → Type 0) (Q : E → Type 0)
    (step : (s : S) (e : E)
      → Q e
      → P s
      → (next : S) × (round s e ≡ some (some next)) × P next) where
  pub thread_loop-kept :
      (es : List E) (s : S)
      → AllOf Q es
      → P s
      → (last : S) × (thread_loop round s es ≡ some (some last)) × P last
  unfolding thread_loop
  thread_loop-kept [] s all h = (s, refl, h)
  thread_loop-kept (e ∷ es) s all h =
      let (next, done, kept) = step s e all.0 h in
      let (last, rest, held) = thread_loop-kept es next all.1 kept in
      (last, rw (done, thread_loop) rest, held)

module _ {S T E : Type 0} (round : S → E → Option (Option S)) (other : T → E → Option (Option T))
    (f : S → T) (P : S → Type 0) (Q : E → Type 0)
    (step : (s : S) (e : E)
      → Q e
      → P s
      → (next : S) × (round s e ≡ some (some next))
        × (other (f s) e ≡ some (some (f next)))
        × P next) where
  pub thread_loop-simulated :
      (es : List E) (s : S)
      → AllOf Q es
      → P s
      → (last : S) × (thread_loop round s es ≡ some (some last))
        × (thread_loop other (f s) es ≡ some (some (f last)))
  unfolding thread_loop
  thread_loop-simulated [] s all h = (s, refl, refl)
  thread_loop-simulated (e ∷ es) s all h =
      let (next, done, follows, kept) = step s e all.0 h in
      let (last, rest, rest') = thread_loop-simulated es next all.1 kept in
      (last, rw (done, thread_loop) rest, rw (follows, thread_loop) rest')
