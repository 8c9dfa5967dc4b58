-- ===== src/Transfer/Schedule/Acquire/Sides.antt =====
-- The sections of a request on the limiter of its direction keep both limiters sound.
use tdrive.Base.{
  ℕ, suc, ◌+◌, ◌≡◌, refl, sym, ap, ◌∙◌, subst, Bool, true, false, Option, none, some, List, [], ◌∷◌,
  ◌++◌, arith, if◌then◌else◌, length,
}
use tdrive.Base.Int.{ℤ}
use tdrive.Transfer.Limiter.{TaskLimiter, enter, give_up}
use tdrive.Transfer.Limiter.Dispatch.{Absent}
use tdrive.Transfer.Limiter.Slots.{
  gate, opened, entered, queued, returned, cancelled_granted, cancelled_waiting, IsSound,
}
use tdrive.Transfer.Limiter.Owners.{one_out, set_limit-IsSound, release-IsSound}
use tdrive.Transfer.Limiter.Fairness.{step-IsSound, new_task_limiter-IsSound}
use tdrive.Transfer.Schedule.Acquire.{same_side, put_side, release_func, synced_limiter}
use tdrive.Transfer.Schedule.Acquire.Totals.{SideIsSound}

-- One slot, in its own direction only.
abbrev pub side_slot : Bool → Bool → ℕ
side_slot u v = if same_side u v then 1 else 0

pub own_slot : (u : Bool) → side_slot u u ≡ 1
own_slot true = refl
own_slot false = refl

-- Two directions, of which one is changed.
module _ (ls : Bool → Option TaskLimiter) (woken : Bool → List ℕ) (n m : Bool → ℕ) where
  abbrev pub BothSound : Type 0
  BothSound = (v : Bool) → SideIsSound (ls v) (n v) (woken v)

  pub recounted :
      ((v : Bool) → m v ≡ n v) → BothSound → (v : Bool) → SideIsSound (ls v) (m v) (woken v)
  recounted e h v = subst (λ i. SideIsSound (ls v) i (woken v)) (sym (e v)) (h v)

  -- `n` and `m` agree on the other direction.
  abbrev pub SameBeside : Bool → Type 0
  SameBeside u = (v : Bool) → same_side u v ≡ false → m v ≡ n v

  module _ (h : BothSound) where
    kept : (v : Bool) → m v ≡ n v → SideIsSound (ls v) (m v) (woken v)
    kept v e = subst (λ i. SideIsSound (ls v) i (woken v)) (sym e) (h v)

    pub on_side :
        (u : Bool) (o : Option TaskLimiter) (zs : List ℕ)
        → SameBeside u
        → SideIsSound o (m u) zs
        → (v : Bool) → SideIsSound (put_side u o ls v) (m v) (put_side u zs woken v)
    on_side true o zs e f true = f
    on_side true o zs e f false = kept false (e false refl)
    on_side false o zs e f true = kept true (e true refl)
    on_side false o zs e f false = f

    pub on_limiter :
        (u : Bool) (o : Option TaskLimiter)
        → SameBeside u
        → SideIsSound o (m u) (woken u)
        → (v : Bool) → SideIsSound (put_side u o ls v) (m v) (woken v)
    on_limiter true o e f true = f
    on_limiter true o e f false = kept false (e false refl)
    on_limiter false o e f true = kept true (e true refl)
    on_limiter false o e f false = f

    pub on_woken :
        (u : Bool) (zs : List ℕ)
        → SameBeside u
        → SideIsSound (ls u) (m u) zs
        → (v : Bool) → SideIsSound (ls v) (m v) (put_side u zs woken v)
    on_woken true zs e f true = f
    on_woken true zs e f false = kept false (e false refl)
    on_woken false zs e f true = kept true (e true refl)
    on_woken false zs e f false = f

-- The critical sections of one limiter.
pub synced-SideIsSound :
    (limit : ℤ) (o : Option TaskLimiter) (held : ℕ) (woken : List ℕ)
    → SideIsSound o held woken
    → SideIsSound (some (synced_limiter limit o).0) held (woken ++ (synced_limiter limit o).1)
synced-SideIsSound limit none held woken (h, w) = rw (h, w) (new_task_limiter-IsSound limit)
synced-SideIsSound limit (some l) held woken h = set_limit-IsSound limit l held woken h

pub release_func-SideIsSound :
    (o : Option TaskLimiter) (held : ℕ) (woken : List ℕ)
    → SideIsSound o (suc held) woken
    → SideIsSound (release_func o).0 held (woken ++ (release_func o).1)
release_func-SideIsSound none held woken h = absurd (omega (arith, h.0))
release_func-SideIsSound (some l) held woken h = release-IsSound l held woken h

module _ (o : Option TaskLimiter) (l : TaskLimiter) (held : ℕ) (woken : List ℕ) where
  module _ (e : o ≡ some l) (h : SideIsSound o held woken) where
    pub known : IsSound (gate l held woken)
    known = subst (λ p. SideIsSound p held woken) e h

    pub enters-IsSound :
        (w : ℕ) (after : TaskLimiter)
        → enter w l ≡ (after, true)
        → IsSound (gate after (held + 1) woken)
    enters-IsSound w after f =
        step-IsSound (gate l held woken) (gate after (held + 1) woken) known
          (entered w l after held woken f)

    pub queues-IsSound :
        (w : ℕ) (after : TaskLimiter)
        → enter w l ≡ (after, false)
        → Absent w (l.queue)
        → l.granted w ≡ false
        → l.cancel w ≡ false
        → IsSound (gate after held woken)
    queues-IsSound w after f a g c =
        step-IsSound (gate l held woken) (gate after held woken) known
          (queued w l after held woken f a g c)

    pub gives_up_waiting-IsSound :
        (w : ℕ) → l.granted w ≡ false → IsSound (opened held woken (give_up w l))
    gives_up_waiting-IsSound w g =
        step-IsSound (gate l held woken) (opened held woken (give_up w l)) known
          (cancelled_waiting w l held woken g)

    pub gives_up_granted-IsSound :
        (before : List ℕ) (w : ℕ) (rest : List ℕ)
        → woken ≡ before ++ w ∷ rest
        → IsSound (opened held (before ++ rest) (give_up w l))
    gives_up_granted-IsSound before w rest f =
        step-IsSound (gate l held (before ++ w ∷ rest)) (opened held (before ++ rest) (give_up w l))
          (subst (λ ws. IsSound (gate l held ws)) f known) (cancelled_granted l held before w rest)

-- A woken waiter runs on; without a limiter nobody is woken.
pub returns-SideIsSound :
    (o : Option TaskLimiter) (held : ℕ) (woken before : List ℕ) (w : ℕ) (rest : List ℕ)
    → woken ≡ before ++ w ∷ rest
    → SideIsSound o held woken
    → SideIsSound o (held + 1) (before ++ rest)
returns-SideIsSound none held woken before w rest e h = absurd (some_in before (sym (h.1) ∙ e))
  where
    some_in : (bs : List ℕ) → [] ≡ bs ++ w ∷ rest → ⊥
    some_in bs f = omega (arith, ap length f, one_out bs w rest)
returns-SideIsSound (some l) held woken before w rest e h =
    step-IsSound (gate l held (before ++ w ∷ rest)) (gate l (held + 1) (before ++ rest))
      (subst (λ ws. IsSound (gate l held ws)) e h) (returned l held before w rest)
