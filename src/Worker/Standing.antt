-- ===== src/Worker/Standing.antt =====
-- What holds of the calls inside the spawn lock and of the live threads.
use wardex_sdk.Prelude.{
  ℕ, ◌≡◌, ◌∙◌, refl, ap, inl, inr, Bool, true, false, ◌&&◌, ◌||◌, Option, none, some, List, [], ◌∷◌,
  nat_eq, nat_eq_iff, and_true, Bool-cases, includes, remove,
}
use wardex_sdk.Worker.Spawn.{
  Frame, starting, ensuring, entering, marking, making, made, publishing, stamping, published,
  leaving, BatchWorker, has_pid, runs, can_reenter,
}

-- No thread lives, or the published one of this process does.
abbrev pub Alone : List ℕ → Option ℕ → Option ℕ → ℕ → Type 0
Alone [] thread for_pid pid = Unit
Alone (t ∷ []) thread for_pid pid = (thread ≡ some t) × (for_pid ≡ some pid)
Alone (t ∷ u ∷ us) thread for_pid pid = ⊥

-- What holds while a call stands there: no thread lives once the tests have passed, and a spawn that
-- is marked is this process's.
abbrev pub Standing : Frame → Option ℕ → ℕ → List ℕ → Option ℕ → Option ℕ → Type 0
Standing starting spawning pid live thread for_pid = Unit
Standing ensuring spawning pid live thread for_pid = Unit
Standing entering spawning pid live thread for_pid = live ≡ []
Standing marking spawning pid live thread for_pid = live ≡ []
Standing making spawning pid live thread for_pid = (spawning ≡ some pid) × (live ≡ [])
Standing (made t) spawning pid live thread for_pid = (spawning ≡ some pid) × (live ≡ [])
Standing (publishing t) spawning pid live thread for_pid = (spawning ≡ some pid) × (live ≡ [])
Standing (stamping t) spawning pid live thread for_pid =
    (spawning ≡ some pid) × (live ≡ []) × (thread ≡ some t)
Standing (published t) spawning pid live thread for_pid =
    (spawning ≡ some pid) × (live ≡ []) × (thread ≡ some t) × (for_pid ≡ some pid)
Standing leaving spawning pid live thread for_pid = spawning ≡ some pid

-- A call that is yet to make its test.
abbrev pub IsTesting : Frame → Type 0
IsTesting starting = Unit
IsTesting ensuring = Unit
IsTesting entering = ⊥
IsTesting marking = ⊥
IsTesting making = ⊥
IsTesting (made t) = ⊥
IsTesting (publishing t) = ⊥
IsTesting (stamping t) = ⊥
IsTesting (published t) = ⊥
IsTesting leaving = ⊥

-- One call inside the lock, or a finalizer's inside a spawn, which has not got past its test.
abbrev pub Framed : List Frame → Option ℕ → ℕ → List ℕ → Option ℕ → Option ℕ → Type 0
Framed [] spawning pid live thread for_pid = Unit
Framed (f ∷ []) spawning pid live thread for_pid = Standing f spawning pid live thread for_pid
Framed (g ∷ f ∷ []) spawning pid live thread for_pid =
    IsTesting g × (can_reenter f ≡ true) × Standing f spawning pid live thread for_pid
Framed (g ∷ f ∷ e ∷ frames) spawning pid live thread for_pid = ⊥

-- Nobody is inside a lock that is free.
abbrev pub Locked : Option ℕ → List Frame → Type 0
Locked none [] = Unit
Locked none (f ∷ frames) = ⊥
Locked (some h) frames = Unit

abbrev pub IsSingle : BatchWorker → Type 0
IsSingle w =
    Alone w.live w.thread w.thread_for_pid w.pid
    × Locked w.holder w.frames
    × Framed w.frames w.spawning_pid w.pid w.live w.thread w.thread_for_pid

pub Alone-none : (live : List ℕ) (th tp : Option ℕ) (pid : ℕ) → live ≡ [] → Alone live th tp pid
Alone-none [] th tp pid e = tt
Alone-none (t ∷ ts) th tp pid e = cc

pub Alone-one :
    (t : ℕ) (live : List ℕ) (th tp : Option ℕ) (pid : ℕ)
    → live ≡ []
    → th ≡ some t
    → tp ≡ some pid
    → Alone (t ∷ live) th tp pid
Alone-one t [] th tp pid e p q = (p, q)
Alone-one t (u ∷ us) th tp pid e p q = cc

pub Alone-remove :
    (t : ℕ) (live : List ℕ) (th tp : Option ℕ) (pid : ℕ)
    → Alone live th tp pid
    → Alone (remove t live) th tp pid
unfolding remove
Alone-remove t [] th tp pid h = tt
Alone-remove t (u ∷ []) th tp pid h = elim (Bool-cases (nat_eq u t)) [
  | inl e ↦ rw e tt
  | inr e ↦ rw e h
]
Alone-remove t (u ∷ (_ ∷ _)) th tp pid h = elim h [ ]

pub remove-none : (t : ℕ) (live : List ℕ) → live ≡ [] → remove t live ≡ []
unfolding remove
remove-none t [] e = refl
remove-none t (u ∷ us) e = cc

pub both_ways : (b : Bool) → b ≡ true → b ≡ false → ⊥
both_ways true e f = cc
both_ways false e f = cc

-- The published thread of this process is alive while it lives.
alive_one :
    (t pid : ℕ) (live : List ℕ) (th tp : Option ℕ)
    → th ≡ some t
    → tp ≡ some pid
    → (has_pid pid tp && runs th (t ∷ live)) ≡ true
unfolding has_pid runs includes
alive_one t pid live th tp p q =
    ap (λ o. has_pid pid o && runs th (t ∷ live)) q
    ∙ ap (λ o. nat_eq pid pid && runs o (t ∷ live)) p
    ∙ and_true (nat_eq pid pid) (nat_eq t t || includes t live) ((nat_eq_iff pid pid).1 refl)
        (ap (λ b. b || includes t live) ((nat_eq_iff t t).1 refl))

-- A worker that is not alive has no live thread.
pub dead-none :
    (live : List ℕ) (th tp : Option ℕ) (pid : ℕ)
    → Alone live th tp pid
    → (has_pid pid tp && runs th live) ≡ false
    → live ≡ []
unfolding has_pid runs includes
dead-none [] th tp pid h e = refl
dead-none (t ∷ []) th tp pid h e =
    absurd (both_ways (has_pid pid tp && runs th (t ∷ [])) (alive_one t pid [] th tp h.0 h.1) e)
dead-none (t ∷ (_ ∷ _)) th tp pid h e = elim h [ ]

pub or_false : (a b : Bool) → (a || b) ≡ false → (a ≡ false) × (b ≡ false)
or_false true b e = cc
or_false false b e = (refl, e)

-- The lock's holder stays, whatever its calls come to.
pub locked : (holder : Option ℕ) (f g : Frame) → Locked holder (f ∷ []) → Locked holder (g ∷ [])
locked none f g l = elim l [ ]
locked (some h) f g l = tt

pub outer : (holder : Option ℕ) (g f : Frame) → Locked holder (g ∷ f ∷ []) → Locked holder (f ∷ [])
outer none g f l = elim l [ ]
outer (some h) g f l = tt

-- A marked spawn of this process is seen.
pub in_flight : (pid : ℕ) (spawning : Option ℕ) → spawning ≡ some pid → has_pid pid spawning ≡ true
unfolding has_pid
in_flight pid spawning e = rw e ((nat_eq_iff pid pid).1 refl)
