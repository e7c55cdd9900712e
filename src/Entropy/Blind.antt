-- ===== src/Entropy/Blind.antt =====
-- Two arithmetics for the tests.
use nocap_crypt.Base.{ℕ, ◌+◌, ◌-◌, ◌*◌, ◌/◌, true, false, ltb, leb}
use nocap_crypt.Entropy.Floats.{Floats}

-- An arithmetic that can tell nothing apart.
abbrev pub blind : Floats
blind = record {
  F = Unit {0};
  of_nat = λ n. tt;
  add = λ a b. tt;
  sub = λ a b. tt;
  mul = λ a b. tt;
  div = λ a b. tt;
  neg = λ a. tt;
  log2 = λ a. tt;
  sqrt = λ a. tt;
  lt = λ a b. false;
  le = λ a b. true;
  sum_start = tt;
  z_95 = tt;
}

abbrev pub whole : Floats
whole = record {
  F = ℕ;
  of_nat = λ n. n;
  add = λ a b. a + b;
  sub = λ a b. a - b;
  mul = λ a b. a * b;
  div = λ a b. a / b;
  neg = λ a. a;
  log2 = λ a. a;
  sqrt = λ a. a;
  lt = ltb;
  le = leb;
  sum_start = 0;
  z_95 = 1;
}
