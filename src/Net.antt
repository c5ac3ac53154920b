-- ===== src/Net.antt =====
-- Network addresses of the standard library, as far as the program tells them apart: by family and
-- number. Code: std::net::IpAddr and std::net::SocketAddr, used by src/wire and src/advertise.rs.
use holler_server.Prelude.{ℕ, ◌/◌, ◌^◌, ◌≡◌, ◌↔◌, Bool, true, false, arith, nat_beq, Eq}

pub data IpAddr : Type 0 where
  v4 v6 : ℕ → IpAddr

pub record SocketAddr : Type 0 where
  pub ip : IpAddr
  pub port : ℕ

abbrev ip_beq : IpAddr → IpAddr → Bool
ip_beq (v4 a) (v4 b) = nat_beq a b
ip_beq (v6 a) (v6 b) = nat_beq a b
ip_beq _ _ = false

pub ip_beq_iff : (a b : IpAddr) → (ip_beq a b ≡ true) ↔ (a ≡ b)
ip_beq_iff (v4 a) (v4 b) = ground arith
ip_beq_iff (v4 a) (v6 b) = ground arith
ip_beq_iff (v6 a) (v4 b) = ground arith
ip_beq_iff (v6 a) (v6 b) = ground arith

instance abbrev pub ip_eq : Eq IpAddr
ip_eq = record { beq = ip_beq; beq_iff = ip_beq_iff }

-- `IpAddr::is_loopback` and `IpAddr::is_unspecified`: 127.0.0.0/8 and ::1, and 0.0.0.0 and ::.
abbrev pub is_loopback : IpAddr → Bool
is_loopback (v4 n) = nat_beq (n / 2 ^ 24) 127
is_loopback (v6 n) = nat_beq n 1

abbrev pub is_unspecified : IpAddr → Bool
is_unspecified (v4 n) = nat_beq n 0
is_unspecified (v6 n) = nat_beq n 0
