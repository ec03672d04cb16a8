-- ===== src/Tests/Firings.antt =====
-- Concrete alarms.
use quic_toy.EventLoop.Agreed.{alarm_step-IsAgreed, IsAgreed, calls_it, IsDone}
use quic_toy.EventLoop.Alarms.{unregister_alarm, has_alarm, EpollAlarm}
use quic_toy.Base.{some, true, ◌≡◌, refl, arith, [], ◌∷◌, if◌then◌else◌, nat_beq}
use quic_toy.EventLoop.Due.{Alarms, OnAlarm, endless, sets, cancels, alarm_loop}
use quic_toy.EventLoop.Firing.{alarm_loop_diverges}
use quic_toy.EventLoop.Rearming.{alarms}

-- The first callback sets another alarm and asks for the same time again, the others are done.
abbrev on_alarm : OnAlarm
on_alarm log cb = if nat_beq cb 1 then (sets 30 4 ∷ cancels 2 ∷ [], 10) else ([], 0)

abbrev three : Alarms
three = alarms [] ((10, 1) ∷ (12, 2) ∷ (25, 3) ∷ []) (1 ∷ 2 ∷ 3 ∷ []) [] []

alarm_loop_diverges_example :
    alarm_loop (λ log cb. (sets 20 cb ∷ [], 0)) 20 9 (alarms [] ((20, 1) ∷ []) (1 ∷ []) [] [])
    ≡ endless
alarm_loop_diverges_example =
    alarm_loop_diverges (λ log cb. (sets 20 cb ∷ [], 0)) 20 20 1 9 [] [] (λ log. refl) (omega arith)

-- An alarm that is set, and is called.
abbrev armed : EpollAlarm
armed = record { cb = 7; registered = true }

armed-IsAgreed : IsAgreed armed ((10, 1) ∷ (20, 7) ∷ [])
unfolding has_alarm unregister_alarm
armed-IsAgreed = (refl, refl)

alarm_step-IsAgreed_example : IsDone (calls_it (some 30)) armed ((10, 1) ∷ (20, 7) ∷ [])
alarm_step-IsAgreed_example =
    alarm_step-IsAgreed (calls_it (some 30)) armed ((10, 1) ∷ (20, 7) ∷ []) armed-IsAgreed tt
