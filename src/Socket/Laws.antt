-- ===== src/Socket/Laws.antt =====
-- Control messages written and read: the self address, and the counter of dropped packets.
use quic_toy.Net.{IpEndPoint, IpAddress}
use quic_toy.Base.{
  zero, ap, refl, ◌-◌, ◌+◌, ltb, [], ◌≤◌, suc, if◌then◌else◌, ◌++◌, some, arith, ◌/◌, false, take,
  ◌^◌, ◌∷◌, ◌<◌, ◌≡◌, ◌%◌, length, Bool, List, ℕ,
}
use quic_toy.Socket.{
  zeros, space_for_ip, so_rxq_ovfl, sol_socket, cmsg_len_of, int_bits, Cmsghdr, make_msghdr,
  get_address_from_msghdr, get_overflow_from_msghdr,
}

take-append : (n : ℕ) (xs ys : List ℕ) → length xs ≡ n → take n (xs ++ ys) ≡ xs
take-append zero [] ys e = refl
take-append zero (x ∷ xs) ys e = absurd (omega (arith, e))
take-append (suc n) [] ys e = absurd (omega (arith, e))
take-append (suc n) (x ∷ xs) ys e = ap (◌∷◌ x) (take-append n xs ys (omega (arith, e)))

-- The control message that WritePacket makes for an IPv6 self address is read back as that address by
-- GetAddressFromMsghdr, and its length fits the buffer.
pub get_address-make_msghdr :
    (is_ipv4 : IpAddress → Bool) (buffer : List ℕ) (self : IpAddress) (peer : IpEndPoint)
    → length self ≡ 16
    → is_ipv4 self ≡ false
    → (get_address_from_msghdr (make_msghdr is_ipv4 buffer self peer) ≡ self)
      × ((make_msghdr is_ipv4 buffer self peer).msg_controllen ≤ space_for_ip)
unfolding get_address_from_msghdr make_msghdr
get_address-make_msghdr is_ipv4 buffer [] peer size other = absurd (omega (arith, size))
get_address-make_msghdr is_ipv4 buffer (b ∷ bs) peer size other = (
  rw (other, make_msghdr) (take-append 16 (b ∷ bs) (zeros (20 - length (b ∷ bs))) size),
  rw (other, make_msghdr) (omega arith),
)

-- The four bytes of a counter below 2 ^ 32, least first.
abbrev pub counter_bytes : ℕ → List ℕ
counter_bytes n = n % 256 ∷ n / 256 % 256 ∷ n / 65536 % 256 ∷ n / 16777216 ∷ []

abbrev pub counter_message : ℕ → Cmsghdr
counter_message n = record {
  cmsg_len = cmsg_len_of 4;
  cmsg_level = sol_socket;
  cmsg_type = so_rxq_ovfl;
  cmsg_data = counter_bytes n;
}

counter_bits : (n : ℕ) → int_bits (counter_bytes n) ≡ n
counter_bits n = omega arith

-- GetOverflowFromMsghdr gives the kernel's counter as it is below 2 ^ 31, and from there on, up to
-- 2 ^ 32, with the upper 32 bits of the 64 set.
pub get_overflow-counter :
    (n : ℕ) (peer : IpEndPoint) (buffer : List ℕ) (others : List Cmsghdr)
    → n < 2 ^ 32
    → get_overflow_from_msghdr (record {
      msg_name = peer;
      msg_iov = buffer;
      msg_control = counter_message n ∷ others;
      msg_controllen = 24;
    })
      ≡ some (if ltb n (2 ^ 31) then n else n + (2 ^ 64 - 2 ^ 32))
unfolding get_overflow_from_msghdr
get_overflow-counter n peer buffer others small = rw (counter_bits n) refl
