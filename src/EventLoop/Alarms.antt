-- ===== src/EventLoop/Alarms.antt =====
-- RegisterAlarm and UnregisterAlarm of net/tools/epoll_server/epoll_server.cc, its EpollAlarm, and
-- the QuicEpollAlarm of net/tools/quic/quic_epoll_connection_helper.cc that stands on it.
use quic_toy.Base.{
  arith, refl, ◌>>=◌, some, true, [], not, nat_beq, none, false, ltb, ◌≡◌, if◌then◌else◌, Option,
  Bool, ◌∷◌, List, ℕ,
}

-- The alarms in the order of their times, those of one time in the order of registration. An alarm
-- is known by its callback, a number.
abbrev pub AlarmMap : Type 0
AlarmMap = List (ℕ × ℕ)

-- std::multimap::insert
unfoldable pub insert_alarm : ℕ → ℕ → AlarmMap → AlarmMap
insert_alarm time cb [] = (time, cb) ∷ []
insert_alarm time cb ((t, c) ∷ m) =
    if ltb time t then (time, cb) ∷ (t, c) ∷ m else (t, c) ∷ insert_alarm time cb m

unfoldable pub has_alarm : ℕ → AlarmMap → Bool
has_alarm cb [] = false
has_alarm cb ((t, c) ∷ m) = if nat_beq c cb then true else has_alarm cb m

-- Registering an alarm twice ends the program.
unfoldable pub register_alarm : ℕ → ℕ → AlarmMap → Option AlarmMap
unfolding insert_alarm has_alarm
register_alarm time cb m = if has_alarm cb m then none else some (insert_alarm time cb m)

-- The token is the alarm's place in the map.
unfoldable pub unregister_alarm : ℕ → AlarmMap → AlarmMap
unregister_alarm cb [] = []
unregister_alarm cb ((t, c) ∷ m) = if nat_beq c cb then m else (t, c) ∷ unregister_alarm cb m

-- EpollAlarm: whether it is registered. OnRegistration, OnUnregistration, OnAlarm.
pub record EpollAlarm : Type 0 where
  pub cb : ℕ
  pub registered : Bool

-- SetImpl and CancelImpl of QuicEpollAlarm.
unfoldable pub set_impl : ℕ → EpollAlarm → AlarmMap → Option (EpollAlarm × AlarmMap)
unfolding register_alarm
set_impl deadline a m = do
  m' ← register_alarm deadline a.cb m
  some (record a { registered = true }, m')

unfoldable pub unregister_if_registered : EpollAlarm → AlarmMap → EpollAlarm × AlarmMap
unfolding unregister_alarm
unregister_if_registered a m =
    if not a.registered then (a, m) else (record a { registered = false }, unregister_alarm a.cb m)

pub unregister-insert :
    (time cb : ℕ) (m : AlarmMap)
    → has_alarm cb m ≡ false
    → unregister_alarm cb (insert_alarm time cb m) ≡ m
unfolding has_alarm insert_alarm unregister_alarm
unregister-insert time cb [] h = ground arith
unregister-insert time cb ((t, c) ∷ m) h = ground (arith, unregister-insert time cb m)

-- An alarm that is not registered can be set; and if it is cancelled then, the loop's alarms are as
-- they were before, in the same order.
pub cancel_after_set :
    (deadline : ℕ) (a : EpollAlarm) (m : AlarmMap)
    → has_alarm a.cb m ≡ false
    → (b : EpollAlarm) × (m' : AlarmMap) × (set_impl deadline a m ≡ some (b, m'))
      × (unregister_if_registered b m' ≡ (record b { registered = false }, m))
unfolding set_impl unregister_if_registered
cancel_after_set deadline a m fresh = (
  record a { registered = true },
  insert_alarm deadline a.cb m,
  (unfold register_alarm in rw fresh refl),
  (rw (unregister-insert deadline a.cb m fresh) refl),
)
