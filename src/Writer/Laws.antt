-- ===== src/Writer/Laws.antt =====
-- What the shared writer and the list of waiting writers guarantee.
use quic_toy.Net.{IpAddress, IpEndPoint, EncryptedPacket}
use quic_toy.Base.{
  inr, length, length-snoc, ◌≤◌, ◌<◌, ◌⊎◌, ◌≡◌, arith, true, false, if◌then◌else◌, ◌==◌,
}
use quic_toy.Base.LinkedMap.{contains, Distinct}
use quic_toy.Base.LinkedMap.Laws.{contains-insert, insert-Distinct}
use quic_toy.Writer.{Platform, Link, BlockedWriter, writer_eq, on_write_blocked, write_packet}

-- A writer is queued exactly if the socket is blocked, and never twice.
pub on_write_blocked-Distinct :
    (w : BlockedWriter) (l : Link)
    → Distinct l.write_blocked_list
    → Distinct (on_write_blocked w l).write_blocked_list
unfolding on_write_blocked
on_write_blocked-Distinct w l d = ground (arith, insert-Distinct w true l.write_blocked_list d)

pub on_write_blocked-queued :
    (w v : BlockedWriter) (l : Link)
    → l.write_blocked ≡ true
    → contains v (on_write_blocked w l).write_blocked_list
      ≡ (if w == v then true else contains v l.write_blocked_list)
unfolding on_write_blocked
on_write_blocked-queued w v l b = rw b (contains-insert v w true l.write_blocked_list)

pub on_write_blocked-free :
    (w : BlockedWriter) (l : Link) → l.write_blocked ≡ false → on_write_blocked w l ≡ l
unfolding on_write_blocked
on_write_blocked-free w l b = ground arith

-- Who waits after the call waited before or is the writer that made it; and nobody is dropped.
pub on_write_blocked-only :
    (w v : BlockedWriter) (l : Link)
    → contains v (on_write_blocked w l).write_blocked_list ≡ true
    → (w ≡ v) ⊎ (contains v l.write_blocked_list ≡ true)
unfolding on_write_blocked
on_write_blocked-only w v l h =
    ground (arith, contains-insert v w true l.write_blocked_list, writer_eq.beq_iff w v)

pub on_write_blocked-keeps :
    (w v : BlockedWriter) (l : Link)
    → contains v l.write_blocked_list ≡ true
    → contains v (on_write_blocked w l).write_blocked_list ≡ true
unfolding on_write_blocked
on_write_blocked-keeps w v l h = ground (arith, contains-insert v w true l.write_blocked_list)

-- Between two states the socket was not found blocked without a call of sendmsg: it is free, it was
-- blocked before, or a packet was handed to it.
abbrev pub Tried : Link → Link → Type 0
Tried l l' =
    (length l.attempts ≤ length l'.attempts)
    × ((l'.write_blocked ≡ false)
        ⊎ (l.write_blocked ≡ true)
        ⊎ (length l.attempts < length l'.attempts))

pub Tried-trans : (k l m : Link) → Tried k l → Tried l m → Tried k m
Tried-trans k l m t u = ground arith

pub Tried-refl : (l : Link) → Tried l l
Tried-refl l = ground arith

pub Tried-same :
    (l l' : Link) → l'.attempts ≡ l.attempts → l'.write_blocked ≡ l.write_blocked → Tried l l'
Tried-same l l' e f = rw (e, f) (Tried-refl l)

pub on_write_blocked-Tried : (w : BlockedWriter) (l : Link) → Tried l (on_write_blocked w l)
unfolding on_write_blocked
on_write_blocked-Tried w l = ground arith

pub write_packet-Tried :
    (platform : Platform) (b : EncryptedPacket) (self : IpAddress) (peer : IpEndPoint) (l : Link)
    → Tried l (write_packet platform b self peer l).0
unfolding write_packet
write_packet-Tried platform b self peer l =
    (rw length-snoc (omega arith), inr (inr (rw length-snoc (omega arith))))
