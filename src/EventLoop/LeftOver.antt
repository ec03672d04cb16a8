-- ===== src/EventLoop/LeftOver.antt =====
-- What CallAndReregisterAlarmEvents of net/tools/epoll_server/epoll_server.cc leaves in the alarm map.
use quic_toy.Base.LinkedMap.Laws.{beq_self}
use quic_toy.EventLoop.Rearming.{alarms, IsLater}
use quic_toy.EventLoop.Due.{
  after_alarm, place, sets, cancels, finished, AlarmCall, make_alarm_calls, Ended, Alarms,
}
use quic_toy.EventLoop.{without, is_member}
use quic_toy.EventLoop.Alarms.{unregister_alarm, insert_alarm, AlarmMap}
use quic_toy.Base.{
  ◌∙◌, sym, ap, leb, if◌then◌else◌, Bool, refl, ◌≡◌, ◌⊎◌, arith, ◌<◌, ◌≤◌, nat_beq, ltb, List,
  Bool-cases, All, ℕ, nat_eq, [], ◌∷◌, true, false, inl, inr,
}

pub All-weaken :
    {P Q : ℕ × ℕ → Type 0} (m : AlarmMap) → ((x : ℕ × ℕ) → P x → Q x) → All P m → All Q m
All-weaken [] f all = tt
All-weaken (x ∷ m) f all = (f x all.0, All-weaken m f all.1)

insert_alarm-All :
    (P : ℕ × ℕ → Type 0) (time cb : ℕ) (m : AlarmMap)
    → P (time, cb)
    → All P m
    → All P (insert_alarm time cb m)
unfolding insert_alarm
insert_alarm-All P time cb [] p all = (p, tt)
insert_alarm-All P time cb ((t, c) ∷ m) p all = elim (Bool-cases (ltb time t)) [
  | inl before ↦ rw before (p, all)
  | inr behind ↦ rw behind (all.0, insert_alarm-All P time cb m p all.1)
]

unregister_alarm-All :
    (P : ℕ × ℕ → Type 0) (cb : ℕ) (m : AlarmMap) → All P m → All P (unregister_alarm cb m)
unfolding unregister_alarm
unregister_alarm-All P cb [] all = tt
unregister_alarm-All P cb ((t, c) ∷ m) all = elim (Bool-cases (nat_beq c cb)) [
  | inl same ↦ rw same all.1
  | inr other ↦ rw other (all.0, unregister_alarm-All P cb m all.1)
]

-- The alarms are in the order of their times, as those of a multimap are.
abbrev pub IsSorted : AlarmMap → Type 0
IsSorted [] = Unit
IsSorted ((time, cb) ∷ m) = All (λ x. time ≤ x.0) m × IsSorted m

insert_alarm-IsSorted :
    (time cb : ℕ) (m : AlarmMap) → IsSorted m → IsSorted (insert_alarm time cb m)
unfolding insert_alarm
insert_alarm-IsSorted time cb [] sorted = (tt, tt)
insert_alarm-IsSorted time cb ((t, c) ∷ m) sorted = elim (Bool-cases (ltb time t)) [
  | inl before ↦
      let le : time ≤ t = ground (arith, before) in
      rw before ((le, All-weaken m (λ x h. omega (arith, le, h)) sorted.0), sorted)
  | inr behind ↦ rw behind (
    insert_alarm-All (λ x. t ≤ x.0) time cb m (ground (arith, behind)) sorted.0,
    insert_alarm-IsSorted time cb m sorted.1,
  )
]

unregister_alarm-IsSorted : (cb : ℕ) (m : AlarmMap) → IsSorted m → IsSorted (unregister_alarm cb m)
unfolding unregister_alarm
unregister_alarm-IsSorted cb [] sorted = tt
unregister_alarm-IsSorted cb ((t, c) ∷ m) sorted = elim (Bool-cases (nat_beq c cb)) [
  | inl same ↦ rw same sorted.1
  | inr other ↦
      rw other
        (unregister_alarm-All (λ x. t ≤ x.0) cb m sorted.0, unregister_alarm-IsSorted cb m sorted.1)
]

-- An alarm is set for later than now, or is among those that are named.
abbrev pub IsLeft : ℕ → List ℕ → ℕ × ℕ → Type 0
IsLeft now named (time, cb) = (now < time) ⊎ (is_member cb named ≡ true)

module _ (now : ℕ) (skipped called : List ℕ) (time cb : ℕ) (due : ltb now time ≡ false)
    (next : Alarms → Ended) (a' : Alarms) where
  pub calls_inverted :
      (calls : List AlarmCall) (passed rest : AlarmMap) (all_alarms : List ℕ)
      → All (IsLater now) calls
      → All (IsLeft now skipped) passed
      → IsSorted ((time, cb) ∷ rest)
      → make_alarm_calls calls (alarms passed ((time, cb) ∷ rest) all_alarms skipped called) next
        ≡ finished a'
      → (passed' : AlarmMap) × (rest' : AlarmMap) × (all_alarms' : List ℕ) × (next
            (alarms passed' ((time, cb) ∷ rest') all_alarms' skipped called)
          ≡ finished a')
        × All (IsLeft now skipped) passed'
        × IsSorted rest'
  unfolding make_alarm_calls
  calls_inverted [] passed rest all_alarms later left sorted eq =
      (passed, rest, all_alarms, eq, left, sorted.1)
  calls_inverted (cancels c ∷ calls) passed rest all_alarms later left sorted eq =
      elim (Bool-cases (is_member c all_alarms)) [
        | inr unknown ↦
            calls_inverted calls passed rest all_alarms later.1 left sorted (rw unknown at eq)
        | inl known ↦
            calls_inverted calls (unregister_alarm c passed) (unregister_alarm c rest)
              (without c all_alarms) later.1
              (unregister_alarm-All (IsLeft now skipped) c passed left)
              (
                unregister_alarm-All (λ x. time ≤ x.0) c rest sorted.0,
                unregister_alarm-IsSorted c rest sorted.1,
              )
              (rw known at eq)
      ]
  calls_inverted (sets t c ∷ calls) passed rest all_alarms later left sorted eq =
      let behind_head : ltb t time ≡ false = ground (arith, due, later.0) in
      elim (Bool-cases (is_member c all_alarms)) [
        | inl twice ↦ cc (rw twice at eq)
        | inr fresh ↦
            calls_inverted calls passed (insert_alarm t c rest) (c ∷ all_alarms) later.1 left
              (
                insert_alarm-All (λ x. time ≤ x.0) t c rest (ground (arith, behind_head)) sorted.0,
                insert_alarm-IsSorted t c rest sorted.1,
              )
              (rw (fresh, behind_head) at eq)
      ]

-- Whoever is named stays named.
IsLeft-more :
    (now : ℕ) (cb : ℕ) (named : List ℕ) (x : ℕ × ℕ) → IsLeft now named x → IsLeft now (cb ∷ named) x
IsLeft-more now cb named (time, c) (inl later) = inl later
IsLeft-more now cb named (time, c) (inr there) = inr (ground (arith, there))

placed_where :
    (now new_timeout cb : ℕ) (passed rest : AlarmMap) (all_alarms skipped called : List ℕ)
    → IsLeft now skipped (new_timeout, cb)
    → All (IsLeft now skipped) passed
    → IsSorted rest
    → let a = place new_timeout cb (alarms passed rest all_alarms skipped called) in
      All (IsLeft now skipped) a.passed
      × IsSorted a.coming
      × (a.called ≡ called)
      × (a.skipped ≡ skipped)
placed_where now new_timeout cb passed [] all_alarms skipped called its left sorted =
    (insert_alarm-All (IsLeft now skipped) new_timeout cb passed its left, tt, refl, refl)
placed_where now new_timeout cb passed ((t, c) ∷ rest) all_alarms skipped called its left sorted =
    elim (Bool-cases (ltb new_timeout t)) [
      | inl before ↦
          rw before (
            insert_alarm-All (IsLeft now skipped) new_timeout cb passed its left,
            sorted,
            refl,
            refl,
          )
      | inr behind ↦
          rw behind (left, insert_alarm-IsSorted new_timeout cb ((t, c) ∷ rest) sorted, refl, refl)
    ]

module _ (now cb new_timeout : ℕ) (next : Alarms → Ended) (a' : Alarms) where
  pub after_inverted :
      (head : ℕ × ℕ) (passed rest : AlarmMap) (all_alarms skipped called : List ℕ)
      → All (IsLeft now skipped) passed
      → IsSorted rest
      → after_alarm now cb new_timeout (alarms passed (head ∷ rest) all_alarms skipped called) next
        ≡ finished a'
      → (a : Alarms) × (next a ≡ finished a')
        × All (IsLeft now a.skipped) a.passed
        × IsSorted a.coming
        × (a.called ≡ called)
        × ((a.skipped ≡ skipped) ⊎ (a.skipped ≡ cb ∷ skipped))
  unfolding after_alarm
  after_inverted head passed rest all_alarms skipped called left sorted eq =
      elim (Bool-cases (nat_beq new_timeout 0)) [
        | inl never ↦ (
          alarms passed rest all_alarms skipped called,
          rw never at eq,
          left,
          sorted,
          refl,
          inl refl,
        )
        | inr again ↦ elim (Bool-cases (is_member cb all_alarms)) [
          | inl twice ↦ cc (rw (again, twice) at eq)
          | inr fresh ↦
              let placed_if : Bool → Alarms = λ b.
                place new_timeout cb
                  (alarms passed rest all_alarms (if b then cb ∷ skipped else skipped) called) in
              let eq' : next (placed_if (leb new_timeout now)) ≡ finished a' =
                rw (again, fresh) at eq in
              elim (Bool-cases (leb new_timeout now)) [
                | inl soon ↦
                    let its : is_member cb (cb ∷ skipped) ≡ true = ground (arith, beq_self cb) in
                    let (l, s, log, sk) =
                      placed_where now new_timeout cb passed rest all_alarms (cb ∷ skipped) called
                        (inr its) (All-weaken passed (IsLeft-more now cb skipped) left) sorted in
                    (
                      placed_if true,
                      ap (λ b. next (placed_if b)) (sym soon) ∙ eq',
                      rw sk l,
                      s,
                      log,
                      inr sk,
                    )
                | inr onward ↦
                    let (l, s, log, sk) =
                      placed_where now new_timeout cb passed rest all_alarms skipped called
                        (inl (ground (arith, onward))) left sorted in
                    (
                      placed_if false,
                      ap (λ b. next (placed_if b)) (sym onward) ∙ eq',
                      rw sk l,
                      s,
                      log,
                      inl sk,
                    )
              ]
        ]
      ]
