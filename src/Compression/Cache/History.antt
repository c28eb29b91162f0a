-- ===== src/Compression/Cache/History.antt =====
-- The cache of instruction hashes against the history of calls (src/compression/cache.rs).
use isartor.Common.{
  length, ℕ, suc, ◌+◌, ◌%◌, ◌<◌, ◌≤◌, Text, text_eq, text_eq_iff, text_eq_self, false, Bool-cases,
  Option-cases, if◌then◌else◌, Option, none, some, List, [], ◌∷◌, ◌≡◌, refl, arith, ap, ◌∙◌, inl,
  inr, ◌==◌,
}
use isartor.Compression.Cache.{InstructionCache, u32_mod, new, get, set, check_and_update}

-- A map law: `scope` is written, `k` is read.
pub get-set :
    (m : InstructionCache) (scope k hash : Text) (turn : ℕ)
    → get (set m scope hash turn) k ≡ (if text_eq scope k then some (hash, turn) else get m k)
unfolding get set
get-set [] scope k hash turn = ground arith
get-set ((j, h, t) ∷ rest) scope k hash turn = ground (
  arith,
  text_eq_iff j scope,
  text_eq_iff j k,
  text_eq_iff scope k,
  get-set rest scope k hash turn,
)

-- The calls, the newest first: a session and a hash.
abbrev pub Calls : Type 0
Calls = List (Text × Text)

unfoldable pub after : Calls → InstructionCache
after [] = new
after ((scope, hash) ∷ older) = (check_and_update (after older) scope hash).0

-- For how many of the session's newest calls, in a row, the hash was `hash`.
unfoldable pub streak : Text → Text → Calls → ℕ
streak scope hash [] = 0
streak scope hash ((s, h) ∷ older) =
    let more = suc (streak scope hash older) in
    if text_eq s scope then (if text_eq h hash then more else 0) else streak scope hash older

-- What the cache holds for a session, said by the history.
unfoldable pub last_hash : Text → Calls → Option Text
last_hash scope [] = none
last_hash scope ((s, h) ∷ older) = if text_eq s scope then some h else last_hash scope older

streak-le : (scope hash : Text) (calls : Calls) → streak scope hash calls ≤ length calls
unfolding streak
streak-le scope hash [] = omega arith
streak-le scope hash ((s, h) ∷ older) = ground (arith, streak-le scope hash older)

streak_absent :
    (scope hash : Text) (calls : Calls) → last_hash scope calls ≡ none → streak scope hash calls ≡ 0
unfolding streak last_hash
streak_absent scope hash [] e = refl
streak_absent scope hash ((s, h) ∷ older) e = ground (arith, streak_absent scope hash older)

streak_other :
    (scope hash : Text) (calls : Calls) {h : Text}
    → last_hash scope calls ≡ some h
    → text_eq h hash ≡ false
    → streak scope hash calls ≡ 0
unfolding streak last_hash
streak_other scope hash [] e n = refl
streak_other scope hash ((s, h') ∷ older) {h} e n =
    ground (arith, streak_other scope hash older {h = h})

streak_pos :
    (scope hash : Text) (calls : Calls)
    → last_hash scope calls ≡ some hash
    → 0 < streak scope hash calls
unfolding streak last_hash
streak_pos scope hash [] e = absurd (ground arith)
streak_pos scope hash ((s, h) ∷ older) e =
    ground (arith, streak_pos scope hash older, text_eq_iff h hash)

abbrev recorded : Text → Calls → Option (Text × ℕ)
recorded scope calls = elim (last_hash scope calls) [
  | none ↦ none
  | some h ↦ some (h, streak scope h calls)
]

-- What a call does and returns, when the cache holds what the history says.
abbrev pub reply : ℕ → Option ℕ
reply n = if n == 0 then none else some (suc n)

update_recorded :
    (m : InstructionCache) (calls : Calls) (scope hash : Text)
    → get m scope ≡ recorded scope calls
    → suc (length calls) < u32_mod
    → check_and_update m scope hash
      ≡ (set m scope hash (suc (streak scope hash calls)), reply (streak scope hash calls))
unfolding check_and_update
update_recorded m calls scope hash e few = elim (Option-cases (last_hash scope calls)) [
  | inl absent ↦
      let zero_streak = streak_absent scope hash calls absent in
      let found : get m scope ≡ none = rw (absent, recorded) at e in ground arith
  | inr (h, present) ↦
      let found : get m scope ≡ some (h, streak scope h calls) = rw (present, recorded) at e in
      elim (Bool-cases (text_eq h hash)) [
        | inl same ↦
            let eq = (text_eq_iff h hash).0 same in
            let pos = streak_pos scope hash calls (rw eq at present) in
            let small = streak-le scope hash calls in
            ground (arith, repeated (streak scope hash calls) pos (omega arith))
        | inr other ↦
            let zero_streak = streak_other scope hash calls {h = h} present other in ground arith
      ]
]
  where
    repeated :
        (n : ℕ)
        → 0 < n
        → suc n < u32_mod
        → ◌≡◌ {A = InstructionCache × Option ℕ}
            (set m scope hash ((n + 1) % u32_mod), some ((n + 1) % u32_mod))
            (set m scope hash (suc n), reply n)
    repeated n pos lt =
        let a : (n + 1) % u32_mod ≡ suc n = omega arith in
        let b : (n == 0) ≡ false = ground arith in rw (a, b)

recorded-cons :
    (scope s h : Text) (older : Calls) (o : Option (Text × ℕ))
    → o ≡ recorded scope older
    → (if text_eq s scope then some (h, suc (streak s h older)) else o)
      ≡ recorded scope ((s, h) ∷ older)
unfolding last_hash streak
recorded-cons scope s h older o e = ground (arith, text_eq_iff s scope, text_eq_self h)

get-after :
    (scope : Text) (calls : Calls)
    → length calls < u32_mod
    → get (after calls) scope ≡ recorded scope calls
unfolding after
get-after scope [] few = unfold get last_hash in refl
get-after scope ((s, h) ∷ older) few =
    ap (λ (r : InstructionCache × Option ℕ). get r.0 scope)
      (update_recorded (after older) older s h (get-after s older (omega arith)) few)
    ∙ get-set (after older) s scope h (suc (streak s h older))
    ∙ recorded-cons scope s h older (get (after older) scope) (get-after scope older (omega arith))

-- After any calls, fewer than 2 ^ 32 - 1 of them, a call returns a turn exactly when the newest call
-- of the same session had the same hash, and the turn is then one more than the number of that
-- session's newest calls in a row that had it. Calls of other sessions in between do not matter.
pub check_and_update-streak :
    (calls : Calls) (scope hash : Text)
    → suc (length calls) < u32_mod
    → (check_and_update (after calls) scope hash).1 ≡ reply (streak scope hash calls)
check_and_update-streak calls scope hash few =
    ap (λ (r : InstructionCache × Option ℕ). r.1)
      (update_recorded (after calls) calls scope hash (get-after scope calls (omega arith)) few)
