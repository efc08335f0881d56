-- ===== src/Hid/Descriptor/Report.antt =====
-- The report descriptor of a parsed HID descriptor is not empty.
use embassy_rp_pio_usb_host.Common.{
  ℕ, ◌+◌, ◌*◌, Bool, true, false, not, ◌&&◌, ◌||◌, ◌≢◌, [], ◌∷◌, Option, none, some, is_some, ◌==◌,
  ltb, if◌then◌else◌, length, drop, Bytes, byte_at, from_le_bytes, arith, Ensures, AllSome,
  >>=-Ensures, guard-Ensures, ok_or-Ensures, AllSome-elim, return-Ensures,
}
use embassy_rp_pio_usb_host.Hid.Descriptor.{HidDescriptor, report_len, parse}

abbrev pub HasReport : HidDescriptor → Type 0
HasReport h = h.report_descriptor_len ≢ 0

keep :
    (n : ℕ) (found : Option ℕ) (b : Bool)
    → AllSome (λ (k : ℕ). k ≢ 0) found
    → n ≢ 0
    → AllSome (λ (k : ℕ). k ≢ 0) (if b then some n else found)
keep n found true w h = h
keep n found false w h = w

report_len-Ensures :
    (bytes : Bytes) (found : Option ℕ)
    → AllSome (λ (n : ℕ). n ≢ 0) found
    → Ensures (AllSome (λ (n : ℕ). n ≢ 0)) (report_len bytes found)
unfolding report_len
report_len-Ensures [] found w = return-Ensures w
report_len-Ensures (a ∷ []) found w = return-Ensures w
report_len-Ensures (a ∷ b ∷ []) found w = return-Ensures w
report_len-Ensures (kind ∷ lo ∷ hi ∷ rest) found w = guard-Ensures (from_le_bytes lo hi == 0) _ λ h.
    guard-Ensures (kind == 0x22 && is_some found) _ λ _.
      report_len-Ensures rest (if kind == 0x22 then some (from_le_bytes lo hi) else found)
        (keep (from_le_bytes lo hi) found (kind == 0x22) w (ground arith))

pub parse-HasReport : (bytes : Bytes) → Ensures HasReport (parse bytes)
unfolding parse
parse-HasReport bytes = guard-Ensures (ltb (length bytes) 6 || not (byte_at bytes 1 == 0x21)) _ λ _.
    guard-Ensures (not (length bytes == 6 + byte_at bytes 5 * 3)) _ λ _.
      >>=-Ensures (report_len (drop 6 bytes) none) (report_len-Ensures (drop 6 bytes) none tt)
        λ found w. ok_or-Ensures found _ λ n e. return-Ensures (AllSome-elim (λ (n : ℕ). n ≢ 0) e w)
