-- ===== src/Workers/Locks.antt =====
-- services/workers/durable.py, `LockOrderGuard`: locks are taken in the order project, order,
-- payment, action and released in reverse.
use scope_guard.Base.{
  ◌⊎◌, ap, subst, ℕ, ◌≤◌, ◌≡◌, refl, sym, ◌∙◌, inl, inr, String, Bool, false, Option, none, some,
  List, [], ◌∷◌, arith, ltb, Bool-cases, Option-cases, if◌then◌else◌, str_eq, Error, ok, err, Exec,
}

-- `LOCK_ORDER`
unfoldable pub lock_order : String → Option ℕ
lock_order name =
    if str_eq name "project"
    then some 0
    else if str_eq name "order"
    then some 1
    else if str_eq name "payment"
    then some 2
    else if str_eq name "action"
    then some 3
    else none

-- `_held`, the lock taken last first
abbrev pub Held : Type 0
Held = List String

abbrev pub rank_or : Option ℕ → ℕ
rank_or none = 0
rank_or (some n) = n

-- the rank of a lock that is held
unfoldable pub rank : String → ℕ
rank name = rank_or (lock_order name)

-- a lock below the one taken last
unfoldable pub out_of_order : ℕ → Held → Bool
out_of_order n [] = false
out_of_order n (last ∷ rest) = ltb n (rank last)

unfoldable pub take_lock : String → Option ℕ → Exec Held (Unit {0})
take_lock resource none held = (err Error.durable, held)
take_lock resource (some n) held =
    if out_of_order n held then (err Error.durable, held) else (ok tt, resource ∷ held)

unfoldable pub acquire : String → Exec Held (Unit {0})
acquire resource held = take_lock resource (lock_order resource) held

unfoldable pub release : String → Exec Held (Unit {0})
release resource [] = (err Error.durable, [])
release resource (last ∷ rest) =
    if str_eq last resource then (ok tt, rest) else (err Error.durable, last ∷ rest)

unfoldable pub acquire_all : List String → Exec Held (Unit {0})
acquire_all [] held = (ok tt, held)
acquire_all (r ∷ rs) held =
    let (done, held') = acquire r held in
    elim done [ ok _ ↦ acquire_all rs held' | err e ↦ (err e, held') ]

-- Each lock that is held ranks at least as high as the one taken before it.
abbrev pub IsOrdered : Held → Type 0
IsOrdered [] = Unit
IsOrdered (a ∷ []) = Unit
IsOrdered (a ∷ b ∷ rest) = (rank b ≤ rank a) × IsOrdered (b ∷ rest)

rank_known : (r : String) (n : ℕ) → lock_order r ≡ some n → rank r ≡ n
unfolding rank
rank_known r n e = ground arith

acquire_cases :
    (r : String) (n : ℕ) (held : Held)
    → out_of_order n held ≡ false
    → rank r ≡ n
    → IsOrdered held
    → IsOrdered (r ∷ held)
unfolding out_of_order
acquire_cases r n [] o e h = tt
acquire_cases r n (a ∷ rest) o e h = (ground arith, h)

take_lock-IsOrdered :
    (r : String) (o : Option ℕ) (held : Held)
    → lock_order r ≡ o
    → IsOrdered held
    → IsOrdered (take_lock r o held).1
unfolding take_lock
take_lock-IsOrdered r none held e h = h
take_lock-IsOrdered r (some n) held e h = elim (Bool-cases (out_of_order n held)) [
  | inl bad ↦ rw bad h
  | inr good ↦ rw good (acquire_cases r n held good (rank_known r n e) h)
]

acquire-IsOrdered : (r : String) (held : Held) → IsOrdered held → IsOrdered (acquire r held).1
unfolding acquire
acquire-IsOrdered r held h = take_lock-IsOrdered r (lock_order r) held refl h

IsOrdered-tail : (a : String) (rest : Held) → IsOrdered (a ∷ rest) → IsOrdered rest
IsOrdered-tail a [] h = tt
IsOrdered-tail a (b ∷ rest) h = h.1

release-IsOrdered : (r : String) (held : Held) → IsOrdered held → IsOrdered (release r held).1
unfolding release
release-IsOrdered r [] h = tt
release-IsOrdered r (a ∷ rest) h = elim (Bool-cases (str_eq a r)) [
  | inl same ↦ rw same (IsOrdered-tail a rest h)
  | inr other ↦ rw other h
]

-- One request of the owner of a guard.
pub data LockOp : Type 0 where
  lock unlock : String → LockOp

unfoldable pub run_locks : List LockOp → Held → Held
run_locks [] held = held
run_locks (LockOp.lock r ∷ ops) held = run_locks ops (acquire r held).1
run_locks (LockOp.unlock r ∷ ops) held = run_locks ops (release r held).1

run_locks-IsOrdered :
    (ops : List LockOp) (held : Held) → IsOrdered held → IsOrdered (run_locks ops held)
unfolding run_locks
run_locks-IsOrdered [] held h = h
run_locks-IsOrdered (LockOp.lock r ∷ ops) held h =
    run_locks-IsOrdered ops (acquire r held).1 (acquire-IsOrdered r held h)
run_locks-IsOrdered (LockOp.unlock r ∷ ops) held h =
    run_locks-IsOrdered ops (release r held).1 (release-IsOrdered r held h)

abbrev pub Holds : String → Held → Type 0
Holds r [] = ⊥
Holds r (a ∷ rest) = (r ≡ a) ⊎ Holds r rest

-- a lock that is held ranks at most as high as the one taken last
below_top :
    (r a : String) (rest : Held) → IsOrdered (a ∷ rest) → Holds r (a ∷ rest) → rank r ≤ rank a
below_top r a rest h (inl e) = omega (arith, ap rank e)
below_top r a [] h (inr m) = absurd m
below_top r a (b ∷ rest) h (inr m) = omega (arith, h.0, below_top r b rest h.1 m)

not_granted : (s : String) (held : Held) → ¬ ((take_lock s none held).0 ≡ ok tt)
unfolding take_lock
not_granted s held e = cc

granted_order :
    (s : String) (n : ℕ) (a : String) (rest : Held)
    → (take_lock s (some n) (a ∷ rest)).0 ≡ ok tt
    → rank a ≤ n
unfolding take_lock out_of_order
granted_order s n a rest e = ground arith

-- what is granted has a rank
granted_known :
    (s : String) (held : Held) → (acquire s held).0 ≡ ok tt → lock_order s ≡ some (rank s)
unfolding acquire
granted_known s held g = elim (Option-cases (lock_order s)) [
  | inl unknown ↦
      absurd (not_granted s held (subst (λ o. (take_lock s o held).0 ≡ ok tt) unknown g))
  | inr (n, e) ↦ e ∙ ap some (sym (rank_known s n e))
]

same_order :
    (r s : String) (a b : Held)
    → (acquire r a).0 ≡ ok tt
    → (acquire s b).0 ≡ ok tt
    → rank r ≡ rank s
    → lock_order r ≡ lock_order s
same_order r s a b g g' e = granted_known r a g ∙ ap some e ∙ sym (granted_known s b g')

granted_above :
    (r s : String) (held : Held)
    → IsOrdered held
    → Holds r held
    → (acquire s held).0 ≡ ok tt
    → rank r ≤ rank s
unfolding acquire
granted_above r s [] h m g = absurd m
granted_above r s (a ∷ rest) h m g =
    let e : lock_order s ≡ some (rank s) = granted_known s (a ∷ rest) g in
    let up : rank a ≤ rank s =
      granted_order s (rank s) a rest (subst (λ o. (take_lock s o (a ∷ rest)).0 ≡ ok tt) e g) in
    omega (arith, below_top r a rest h m)

-- Two owners whose guards have granted every request so far can each be granted a lock that the
-- other holds only if both locks have the same rank: no two owners wait for each other across the
-- levels project, order, payment and action.
pub no_cross_wait :
    (ours theirs : List LockOp) (r s : String)
    → Holds r (run_locks ours [])
    → Holds s (run_locks theirs [])
    → (acquire s (run_locks ours [])).0 ≡ ok tt
    → (acquire r (run_locks theirs [])).0 ≡ ok tt
    → lock_order r ≡ lock_order s
no_cross_wait ours theirs r s hr hs g g' = same_order r s _ _ g' g (
    omega (
      arith,
      granted_above r s (run_locks ours []) (run_locks-IsOrdered ours [] tt) hr g,
      granted_above s r (run_locks theirs []) (run_locks-IsOrdered theirs [] tt) hs g',
    ))
