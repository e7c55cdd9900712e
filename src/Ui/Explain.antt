-- ===== src/Ui/Explain.antt =====
-- crates/nocap-crypt-ui/src/didactic/narrate.rs: the explanations of keys, scores and
-- benchmarks.
use Prim.Native.String.{◌++◌ as ◌<>◌}
use nocap_crypt.Base.{ℕ, ◌/◌, min, Bool, true, false, String, ◌==◌, if◌then◌else◌}
use nocap_crypt.Base.Text.{show_nat}
use nocap_crypt.Ui.Event.{Numbers}

-- `explain_bench_methodology`
unfoldable pub explain_bench_methodology : String
explain_bench_methodology =
    "these numbers come from encrypting real data through the exact same "
    <> "file-backed dispatch path `image encrypt`/`decrypt` use — real temp files, "
    <> "real O_DIRECT-or-buffered I/O, real AES-XTS — not an in-memory-only "
    <> "microbenchmark that would flatter the cipher and hide I/O cost."

-- `explain_keycheck_length`
unfoldable pub explain_keycheck_length : String
explain_keycheck_length =
    "key length must match the cipher spec exactly — XTS doubles the AES key size "
    <> "(two concatenated keys, one per role), CBC-ESSIV doesn't. Get the length "
    <> "wrong and this fails before entropy is even checked."

unfoldable pub explain_entropy_result_ciphertext : (n : Numbers) → n.floats.F → String
explain_entropy_result_ciphertext n bits_per_byte =
    "this ciphertext scored "
    <> n.fixed 4 bits_per_byte
    <> " bits/byte. Near 8.0 is necessary but not sufficient: a forgotten unencrypted "
    <> "region or a padding bug would show up as a LOWER score here — but XTS "
    <> "provides confidentiality only, no authentication, so an attacker who flips "
    <> "ciphertext bits undetected isn't caught by entropy at all."

unfoldable pub explain_entropy_result_key : (n : Numbers) → n.floats.F → ℕ → String
explain_entropy_result_key n bits_per_byte key_bytes =
    let ceiling = n.floats.log2 (n.floats.of_nat (min key_bytes 256)) in
    "this key scored "
    <> n.fixed 4 bits_per_byte
    <> " bits/byte. That looks low next to the 8.0 maximum, but for a "
    <> show_nat key_bytes
    <> "-byte sample it isn't: naive per-byte Shannon entropy can never exceed about "
    <> n.fixed 2 ceiling
    <> " bits/byte here, no matter how random the source is — there simply aren't "
    <> "enough bytes to occupy all 256 possible values, so this metric is capped by "
    <> "sample size long before it says anything about randomness quality. For key "
    <> "material the stakes are simpler and higher than for a ciphertext: there's no "
    <> "cipher construction to fall back on here — a key an attacker can guess or "
    <> "narrow down is a direct, standalone break, full stop, regardless of how sound "
    <> "XTS itself is. This test only catches gross statistical failure (a stuck RNG, "
    <> "a zeroed buffer, a short repeating pattern) — it cannot prove the underlying "
    <> "generator was actually a CSPRNG rather than something merely "
    <> "random-*looking*, which is why where this key came from (see the note printed "
    <> "alongside key generation) matters more than this number does."

unfoldable pub explain_entropy_result_generic : (n : Numbers) → n.floats.F → String
explain_entropy_result_generic n bits_per_byte =
    "this data scored "
    <> n.fixed 4 bits_per_byte
    <> " bits/byte. Near 8.0 is consistent with encrypted or compressed content, or "
    <> "genuine random data — entropy alone can't distinguish those, and can't tell "
    <> "you whether this data is *correct*, only that it lacks obvious repeating "
    <> "structure. If you expected this to be ciphertext, a LOW score here is the "
    <> "useful signal: it usually means something upstream isn't actually encrypting "
    <> "what you think it is."

-- The `let structure` of `explain_key_generation`.
unfoldable pub key_structure : ℕ → Bool → String
key_structure key_bytes true =
    let half = key_bytes / 2 in
    "these "
    <> show_nat key_bytes
    <> " bytes are two independent "
    <> show_nat half
    <> "-byte AES keys concatenated back to back: the first half encrypts your data, "
    <> "the second half encrypts the per-sector tweak — see `nocap-crypt image "
    <> "encrypt --didactic` for how those two keys actually get used together"
key_structure key_bytes false =
    "these "
    <> show_nat key_bytes
    <> " bytes are the single AES key CBC-ESSIV uses directly for both roles — its "
    <> "per-sector IV isn't a second independent key, it's derived by hashing this "
    <> "same key with SHA-256, so there is exactly one real secret here, not two"

unfoldable pub explain_key_generation : ℕ → Bool → String
explain_key_generation key_bytes is_xts =
    let structure = key_structure key_bytes is_xts in
    "this key comes from your OS's cryptographically secure random number "
    <> "generator (CSPRNG) — real kernel/hardware entropy, never a language's plain, "
    <> "non-cryptographic `rand()`, and never derived from a password or any other "
    <> "guessable seed. " <> structure <> "."

unfoldable pub explain_bench_data_source : ℕ → String
explain_bench_data_source seed =
    "the plaintext being encrypted is synthetic: a fast, seeded, NON-cryptographic "
    <> "pseudo-random generator (seed "
    <> show_nat seed
    <> ") fills it deterministically, so re-running with the same --seed reproduces "
    <> "byte-identical input — useful for catching a real performance regression "
    <> "instead of noise from different random data each run. This generator is a "
    <> "completely separate type from key generation's CSPRNG and could never be "
    <> "reached for real key material by accident."

unfoldable pub explain_bench_worker_count : ℕ → String
explain_bench_worker_count worker_count =
    let plural : String = if worker_count == 1 then "" else "s" in
    "workers="
    <> show_nat worker_count
    <> ": this pass forces exactly "
    <> show_nat worker_count
    <> " worker thread"
    <> plural
    <> " for the whole run, not the adaptive default `image encrypt` picks on its own "
    <> "— the whole point of sweeping this number is isolating how throughput scales "
    <> "with parallelism, which is only safe to measure at all because XTS sectors "
    <> "don't chain together (see `image encrypt --didactic` for why that's true and "
    <> "not just a performance convenience)."
