-- ===== src/Server/Awake.antt =====
-- A server whose socket is blocked stays awake: the event loop calls it again to write.
use quic_toy.Base.LinkedMap.Laws.{beq_self}
use quic_toy.EventLoop.Answers.{call_loop-IsAnswered}
use quic_toy.Socket.{Received}
use quic_toy.Server.Schedule.{Host}
use quic_toy.Dispatcher.{Dispatcher, Framer}
use quic_toy.Writer.{Platform}
use quic_toy.TimeWait.{Flags}
use quic_toy.Session.{Connections}
use quic_toy.Base.Bits.{bit_and-bit_or_four}
use Prim.Native.Nat.{bit_or}
use quic_toy.EventLoop.Round.{in_events}
use quic_toy.EventLoop.Served.{
  called_ready, find-reports, handle_events-IsTidy, handle_events-keeps,
}
use quic_toy.Server.Looping.{server_on_event, has_bits}
use quic_toy.EventLoop.Executing.{has_ready}
use quic_toy.EventLoop.Asked.{handle_events-IsAsked, IsAsked}
use quic_toy.EventLoop.Loop.{
  swap-IsTidy, swap, call_ready_list_callbacks-IsTidy, call_ready_list_callbacks-reports, reports,
  IsQuiet,
}
use quic_toy.EventLoop.Tidy.{IsTidy}
use quic_toy.Base.LinkedMap.{find}
use quic_toy.Base.Int.{negsuc, pos, ℤ}
use quic_toy.EventLoop.Callbacks.{call_ready_list_callbacks, OnEvent}
use quic_toy.EventLoop.Wait.{handle_events, wait_for_events_and_call_handle_events, timeout_in_ms}
use quic_toy.EventLoop.{epollin, is_member, epollout, Entry, is_linked, EventLoop}
use quic_toy.Server.{on_event}
use mathlib.Core.Path.{subst}
use quic_toy.Base.{
  Option-cases, length, suc, Option, ap, ◌∙◌, nat_beq, Bool-cases, inr, refl, inl, arith,
  List-cases, ◌++◌, List, ◌≡◌, ℕ, nat_eq, none, some, [], true,
}

ready_again :
    (fd : ℕ) (l : EventLoop) → l.tmp_list ≡ [] → is_linked fd l ≡ true → has_ready l ≡ true
ready_again fd l done linked = elim (List-cases l.ready_list) [
  | inl nothing ↦ cc (rw (nothing, done) at linked)
  | inr (first, rest, some_ready) ↦ rw some_ready refl
]

never_sleeps : (timeout : ℤ) → timeout_in_ms timeout true ≡ pos 0
unfolding timeout_in_ms
never_sleeps (pos timeout) = ground arith
never_sleeps (negsuc t) = refl

-- A wait in which a descriptor that asked for EPOLLOUT is called for it, whatever is reported.
abbrev pub IsCalledToWrite : OnEvent → List (ℕ × ℕ) → ℕ → EventLoop → Type 0
IsCalledToWrite next events fd l =
    (l' : EventLoop) × (new : List (ℕ × ℕ)) × (in_mask : ℕ)
    × (wait_for_events_and_call_handle_events next events l ≡ some l')
    × (l'.called ≡ l.called ++ new)
    × (find fd new ≡ some in_mask)
    × (has_bits epollout in_mask ≡ true)

called_to_write :
    (next : OnEvent) (events : List (ℕ × ℕ)) (fd cb : ℕ) (l : EventLoop)
    → IsTidy none l
    → l.tmp_list ≡ []
    → IsQuiet next
    → IsAsked fd cb epollout l
    → IsCalledToWrite next events fd l
called_to_write next events fd cb l v idle quiet asked =
    let w = handle_events events l in
    let (tmp, log) = handle_events-keeps events l in
    let (l', eq, v', done, called) =
      call_ready_list_callbacks-reports next w (handle_events-IsTidy events l v) (tmp ∙ idle)
        quiet in
    let (e, found, has, fake, linked) = handle_events-IsAsked fd cb epollout events l asked in
    let ready : is_member fd w.ready_list ≡ true = ground (arith, linked, tmp ∙ idle) in
    let bits : has_bits epollout (bit_or e.events_asserted e.events_to_fake) ≡ true =
      rw (fake, bit_and-bit_or_four e.events_asserted) refl in
    elim (List-cases w.ready_list) [
      | inl nothing ↦ cc (rw nothing at ready)
      | inr (first, rest, some_ready) ↦ (
        l',
        reports next w.cb_map w.ready_list,
        bit_or e.events_asserted e.events_to_fake,
        called_ready next events l l' first rest some_ready eq,
        called ∙ rw log refl,
        find-reports next fd w.cb_map w.ready_list ready ∙ rw found refl,
        bits,
      )
    ]

module _ (conns : Connections) (flags : Flags) (platform : Platform) (framer : Framer)
    (port server_cb : ℕ) where
  open conns use {Conn}

  pub server_on_event-IsQuiet :
      (h : Host Conn) (datagrams : List Received)
      → IsQuiet (server_on_event conns flags platform framer port server_cb h datagrams)
  unfolding server_on_event
  server_on_event-IsQuiet h datagrams log cb fd events =
      let readable = has_bits epollin events in
      let writable = has_bits epollout events in
      elim (Bool-cases (nat_beq cb server_cb)) [
        | inr other ↦ rw (server_on_event, other) refl
        | inl mine ↦
            elim (Option-cases (
              on_event conns flags platform framer readable writable datagrams port h.now h.dropped
                h.dispatcher)) [
                  | inl stops ↦ rw (server_on_event, mine, stops) refl
                  | inr (result, eq) ↦ rw (server_on_event, mine, eq) refl
                ]
      ]

  -- A server that asks for EPOLLOUT, since writers wait for the blocked socket, is called again: the turn
  -- of the event loop in which it is called for its socket returns, the next one does not sleep, and OnEvent
  -- of the server is called in that with EPOLLOUT, whatever the kernel reports then. The loop's tables
  -- are tidy and no callback is running, the server's descriptor is registered with its callback and
  -- ready, and callbacks make no calls on the loop.
  pub server_on_event-IsCalledToWrite :
      (h : Host Conn) (datagrams : List Received) (next : OnEvent) (events events' : List (ℕ × ℕ))
      (fd : ℕ) (e : Entry) (l : EventLoop)
      → IsTidy none l
      → l.tmp_list ≡ []
      → IsQuiet next
      → is_member fd (handle_events events l).ready_list ≡ true
      → find fd (handle_events events l).cb_map ≡ some e
      → e.cb ≡ some server_cb
      → (d : Dispatcher Conn) (dropped : Option ℕ)
      → let in_mask = bit_or e.events_asserted e.events_to_fake in
        on_event conns flags platform framer
            (has_bits epollin in_mask)
            (has_bits epollout in_mask)
            datagrams
            port
            h.now
            h.dropped
            h.dispatcher
          ≡ some (d, dropped, true)
        → (l' : EventLoop) × (wait_for_events_and_call_handle_events
              (server_on_event conns flags platform framer port server_cb h datagrams)
              events
              l
            ≡ some l')
          × ((timeout : ℤ) → timeout_in_ms timeout (has_ready l') ≡ pos 0)
          × IsCalledToWrite next events' fd l'
  unfolding server_on_event call_ready_list_callbacks
  server_on_event-IsCalledToWrite h datagrams next events events' fd e l v idle quiet ready found
        mine d dropped asks =
      let callback = server_on_event conns flags platform framer port server_cb h datagrams in
      let own = server_on_event-IsQuiet h datagrams in
      let w = handle_events events l in
      let (tmp, log) = handle_events-keeps events l in
      let v1 = handle_events-IsTidy events l v in
      let (l', eq, v', done) = call_ready_list_callbacks-IsTidy callback w v1 (tmp ∙ idle) in
      let (log', cb, e', found', has, answer) =
        call_loop-IsAnswered callback own (suc (length w.ready_list)) (swap callback w) l' fd
          (swap-IsTidy callback w v1 (tmp ∙ idle)) ready eq in
      let asked : IsAsked fd cb epollout l' =
        let same : e' ≡ e = cc (found', found) in
        let its : cb ≡ server_cb = cc (has, mine, same) in
        let out : (callback log' server_cb fd (bit_or e.events_asserted e.events_to_fake)).1
            ≡ epollout =
          rw (server_on_event, beq_self server_cb, asks) refl in
        let out' : (callback log' cb fd (in_events callback (some e'))).1 ≡ epollout =
          ap (λ c. (callback log' c fd (in_events callback (some e'))).1) its
          ∙ ap (λ x. (callback log' server_cb fd (in_events callback (some x))).1) same
          ∙ out in
        subst (λ o. IsAsked fd cb o l') out' (answer (ap (λ o. nat_beq o 0) out')) in
      elim (List-cases w.ready_list) [
        | inl nothing ↦ cc (rw nothing at ready)
        | inr (first, rest, some_ready) ↦ (
          l',
          called_ready callback events l l' first rest some_ready eq,
          λ timeout. rw (ready_again fd l' done asked.4) (never_sleeps timeout),
          called_to_write next events' fd cb l' v' done quiet asked,
        )
      ]
