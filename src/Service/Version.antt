-- ===== src/Service/Version.antt =====
-- src/service/version.rs: the version of a gateway in one number.
use gateway_rs.Base.{ℕ, ◌+◌, ◌*◌, ◌/◌, ◌%◌, ◌^◌, ◌<◌, ◌≡◌, refl, arith}

pub record GatewayVersion : Type 0 where
  pub major : ℕ
  pub minor : ℕ
  pub patch : ℕ

abbrev u16 : ℕ → ℕ
u16 n = n % 2 ^ 16

unfoldable pub version_from : ℕ → GatewayVersion
version_from v = record {
  major = u16 (v / 10000000 % 1000);
  minor = u16 (v / 10000 % 1000);
  patch = u16 (v % 10000);
}

-- Four digits for the patch, three for each of the others.
abbrev pub number_of : GatewayVersion → ℕ
number_of version = version.major * 10000000 + version.minor * 10000 + version.patch

-- A version whose parts have at most three, three and four digits is read back from its number, and
-- a number of at most ten digits is that of the version that is read from it.
pub version_from-number_of :
    (version : GatewayVersion) (v : ℕ)
    → version.major < 1000
    → version.minor < 1000
    → version.patch < 10000
    → v < 10000000000
    → (version_from (number_of version) ≡ version) × (number_of (version_from v) ≡ v)
unfolding version_from
version_from-number_of version v below_major below_minor below_patch below =
    let major : u16 (number_of version / 10000000 % 1000) ≡ version.major = omega arith in
    let minor : u16 (number_of version / 10000 % 1000) ≡ version.minor = omega arith in
    let patch : u16 (number_of version % 10000) ≡ version.patch = omega arith in
    (rw (version_from, major, minor, patch) refl, omega arith)
