-- ===== src/Ui/Narrate.antt =====
-- crates/nocap-crypt-ui/src/didactic/narrate.rs: the explanations of `--didactic`.
use Prim.Native.String.{◌++◌ as ◌<>◌}
use mathlib.Core.List.{reverse}
use nocap_crypt.Base.{ℕ, List, [], ◌∷◌, String}
use nocap_crypt.Base.Text.{show_nat, hex_bytes}

-- `<[&str]>::join("\n")`
unfoldable pub join_lines : List String → String
join_lines [] = ""
join_lines (line ∷ []) = line
join_lines (line ∷ (next ∷ rest)) = line <> "\n" <> join_lines (next ∷ rest)

-- `DIDACTIC_PRIMER`
unfoldable pub didactic_primer : String
didactic_primer =
    "--didactic: lines starting with → explain what's happening, with real numbers "
    <> "— never real key or plaintext bytes."

-- `explain_block_cipher_basics`
unfoldable pub explain_block_cipher_basics : String
explain_block_cipher_basics =
    "AES encrypts fixed 16-byte blocks: same key, same input, same output, every "
    <> "time. Apply that raw across a disk (ECB mode) and identical plaintext blocks "
    <> "produce identical ciphertext blocks — structure leaks straight through, which "
    <> "is why an ECB-\"encrypted\" bitmap famously still looks like the same bitmap. "
    <> "XTS exists to break that pattern."

-- `explain_xts_tweakability`
unfoldable pub explain_xts_tweakability : String
explain_xts_tweakability =
    "XTS is a tweakable block cipher: every block is encrypted with the key AND a "
    <> "per-position \"tweak\" derived from its sector number, so identical plaintext "
    <> "at different sector positions produces different ciphertext. Sectors never "
    <> "chain to each other — that's what makes reading or writing any sector "
    <> "independently correct, and it's true for both ciphers this tool supports "
    <> "(CBC-ESSIV resets its IV every sector too). What's specific to XTS is one "
    <> "level deeper: even the 16-byte blocks *within* one sector don't chain to each "
    <> "other — see the diagram below, and the cost of that below it."

-- `explain_xts_malleability`
unfoldable pub explain_xts_malleability : String
explain_xts_malleability =
    "Two things fall out of that per-block independence — inherent to XTS itself, "
    <> "not a defect in this tool, which is exactly why NIST restricts XTS to storage "
    <> "encryption and nothing else. First: XTS is \"ECB-like\" at the 16-byte-block "
    <> "level — because nothing chains blocks together, an attacker with write access "
    <> "to the ciphertext can flip ciphertext bits and get a precise, predictable bit "
    <> "flip in the decrypted plaintext at that exact position, with no error "
    <> "propagation to warn you. Second: since a block's tweak depends only on "
    <> "(sector index, block-in-sector index) and never on *when* it was written, an "
    <> "attacker who saved an old ciphertext block can splice it back in later and it "
    <> "decrypts validly to the old content — XTS has no way to tell a current block "
    <> "from a replayed one. Both are why this tool (like real dm-crypt in plain "
    <> "mode) provides confidentiality only: if you need tamper detection or rollback "
    <> "protection, that has to come from a layer above this one (dm-verity, "
    <> "dm-integrity, filesystem-level signing) — never assume XTS gives you that for " <> "free."

-- `explain_plain64_tweak_is_not_secret`
unfoldable pub explain_plain64_tweak_is_not_secret : String
explain_plain64_tweak_is_not_secret =
    "The tweak below is just the sector number — publicly derivable, not secret. "
    <> "plain64's security doesn't come from hiding it; it comes from XTS's "
    <> "construction. Don't confuse this number with the key."

-- `narration_sample_note`
unfoldable pub narration_sample_note : String
narration_sample_note =
    "(this same derivation runs for every sector in the file — shown once here, "
    <> "not per sector, so a real-sized file doesn't flood the log)"

-- `explain_headerless_plain`
unfoldable pub explain_headerless_plain : String
explain_headerless_plain =
    "plain64 writes zero header bytes: no magic number, no key slots, nothing on "
    <> "disk that says \"this is encrypted\" or names the cipher. LUKS would have a "
    <> "parseable header here — this tool only detects a LUKS header's magic bytes, "
    <> "it doesn't parse one, because headerless plain64 is the actual target. That's "
    <> "why validation is structural (file size is a whole number of sectors, the "
    <> "cipher spec string round-trips), not header parsing — there's no header to "
    <> "parse. The honest cost: nothing on disk proves what key or cipher was used, "
    <> "or that this file is even encrypted rather than random garbage. That has to "
    <> "be carried out-of-band, which is why a --key-file dry-run decrypt (checking "
    <> "for a known filesystem magic byte) is the strongest practical signal short of "
    <> "an actual mount."

-- `explain_headerless_plain_reference`
unfoldable pub explain_headerless_plain_reference : String
explain_headerless_plain_reference =
    "no header is being written to the output — plain64 has none by design. See "
    <> "`nocap-crypt validate --didactic` for what that means and what it costs."

-- `explain_alignment_context`
unfoldable pub explain_alignment_context : String
explain_alignment_context =
    "alignment here means O_DIRECT sector-size alignment (buffers/offsets matching "
    <> "the device's 512- or 4096-byte sector size), not compiled-binary layout. "
    <> "Getting it wrong means silent corruption or a kernel EINVAL, not a crash "
    <> "you'd notice immediately — which is why it's checked automatically here "
    <> "rather than trusted to the caller."

-- The lines of the diagram, joined by line breaks.
unfoldable pub xts_ascii_diagram : String
xts_ascii_diagram = join_lines (
    "PLAINTEXT SECTOR (512 bytes = 32 independent 16-byte blocks)" ∷ ""
    ∷ "  blk 0      blk 1      blk 2       ...      blk 31  "
    ∷ "    |          |          |          |          |    "
    ∷ "  T*a^0      T*a^1      T*a^2       ...      T*a^31     <- tweak = AES(Key2, sector) * alpha^j"
    ∷ "    |          |          |          |          |    "
    ∷ "[ AES(Key1, block XOR tweak) XOR tweak ]  <- each block encrypted INDEPENDENTLY"
    ∷ "    |          |          |          |          |    "
    ∷ "  blk 0      blk 1      blk 2       ...      blk 31  " ∷ "" ∷ "CIPHERTEXT SECTOR" ∷ ""
    ∷ "no chaining between blocks: flip one ciphertext bit, and only the matching"
    ∷ "plaintext bit at that exact position flips back -- nothing else in the"
    ∷ "sector is affected, and nothing detects that it happened." ∷ [])

unfoldable pub explain_iv_derivation : ℕ → List ℕ → String
explain_iv_derivation sector_512 iv =
    let hex = hex_bytes (reverse iv) in
    "sector "
    <> show_nat sector_512
    <> " -> IV = 0x"
    <> hex
    <> " (little-endian sector number, zero-padded to 16 bytes)"
