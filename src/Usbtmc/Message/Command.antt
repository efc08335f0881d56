-- ===== src/Usbtmc/Message/Command.antt =====
-- What `write` sends, read by the message format of the class.
use embassy_rp_pio_usb_host.Common.{
  ℕ, ◌+◌, ◌-◌, ◌/◌, ◌%◌, ◌^◌, ◌≡◌, ◌≢◌, ◌≤◌, ◌<◌, true, ◌&&◌, Option, none, some, [], ◌∷◌, ◌++◌, ok,
  ◌==◌, if◌then◌else◌, length, take, drop, replicate, Bytes, byte_at, refl, sym, ap, ◌∙◌, arith,
  length-append, length-replicate, take-append, replicate_split, write_at_front,
}
use embassy_rp_pio_usb_host.Common.Slices.{write_at-append}
use embassy_rp_pio_usb_host.Usbtmc.Message.{
  take_tag, complement, padded, u32_at, outgoing, write_message,
}

-- A device's reading of a message: its tag and the command, when the header is that of a whole
-- command for the device and the length is right.
pub read_command : Bytes → Option (ℕ × Bytes)
read_command message =
    if byte_at message 0 == 1
      && byte_at message 2 == complement (byte_at message 1)
      && byte_at message 8 == 1
      && length message == 12 + padded (u32_at message 4)
    then some (byte_at message 1, take (u32_at message 4) (drop 12 message))
    else none

abbrev header : ℕ → ℕ → Bytes
header tag n =
    1
    ∷ tag
    ∷ complement tag
    ∷ 0
    ∷ n % 2 ^ 8
    ∷ n / 2 ^ 8 % 2 ^ 8
    ∷ n / 2 ^ 16 % 2 ^ 8
    ∷ n / 2 ^ 24 % 2 ^ 8
    ∷ 1
    ∷ 0
    ∷ 0
    ∷ 0
    ∷ []

outgoing_lem :
    (tag : ℕ) (command : Bytes)
    → outgoing tag command
      ≡ header tag (length command)
        ++ (command ++ replicate (padded (length command) - length command) 0)
unfolding outgoing
outgoing_lem tag command =
    let n : ℕ = length command in
    let more : ℕ = padded n - n in
    let e : padded n ≡ n + more = omega arith in
    let nil : ℕ = 0 in
    let whole : replicate (12 + padded n) nil
        ≡ replicate 12 nil ++ (replicate n nil ++ replicate more nil) =
      replicate_split 12 (padded n) nil
      ∙ ap (λ (l : Bytes). replicate 12 nil ++ l)
          (ap (λ (k : ℕ). replicate k nil) e ∙ replicate_split n more nil) in
    rw whole (
      write_at-append (header tag n) (replicate n nil ++ replicate more nil) command
      ∙ ap (λ (l : Bytes). header tag n ++ l)
          (write_at_front command (replicate n nil) (replicate more nil) (length-replicate n nil)))

u32_at-header : (tag n : ℕ) (rest : Bytes) → n < 2 ^ 32 → u32_at (header tag n ++ rest) 4 ≡ n
u32_at-header tag n rest h = omega arith

length-outgoing :
    (tag : ℕ) (command : Bytes) → length (outgoing tag command) ≡ 12 + padded (length command)
length-outgoing tag command =
    let n : ℕ = length command in
    let nil : ℕ = 0 in
    rw (outgoing_lem tag command) (
      omega (
        arith,
        length-append command (replicate (padded n - n) nil),
        length-replicate (padded n - n) nil,
      ))

read_command_lem :
    (message : Bytes) (tag n : ℕ) (command : Bytes)
    → byte_at message 0 ≡ 1
    → byte_at message 1 ≡ tag
    → byte_at message 2 ≡ complement tag
    → byte_at message 8 ≡ 1
    → u32_at message 4 ≡ n
    → length message ≡ 12 + padded n
    → take n (drop 12 message) ≡ command
    → read_command message ≡ some (tag, command)
unfolding read_command
read_command_lem message tag n command kind tagged complemented last sized whole rest =
    let valid : (byte_at message 0 == 1
          && byte_at message 2 == complement (byte_at message 1)
          && byte_at message 8 == 1
          && length message == 12 + padded (u32_at message 4))
        ≡ true =
      ground arith in
    rw valid (
      ap some (
        ap (λ (t : ℕ). (t, take (u32_at message 4) (drop 12 message))) tagged
        ∙ ap (λ (k : ℕ). (tag, take k (drop 12 message))) sized
        ∙ ap (λ (c : Bytes). (tag, c)) rest))

read_command-outgoing :
    (tag : ℕ) (command : Bytes)
    → length command < 2 ^ 32
    → read_command (outgoing tag command) ≡ some (tag, command)
read_command-outgoing tag command h =
    let n : ℕ = length command in
    let nil : ℕ = 0 in
    let rest : Bytes = command ++ replicate (padded n - n) nil in
    let e = outgoing_lem tag command in
    let size = length-outgoing tag command in
    rw e (
      read_command_lem (header tag n ++ rest) tag n command refl refl refl refl
        (u32_at-header tag n rest h) (sym (ap length e) ∙ size)
        (take-append command (replicate (padded n - n) nil)))

-- A command that fits the buffer is sent with the next tag as one whole message of whole words, within
-- the buffer, and a device that reads it by the format of the class gets the tag and exactly the
-- command; the next tag is again a byte other than zero, and another one. The hypotheses are that the
-- tag is such a byte, as at the start, and that the length is a 32-bit number.
pub write_message-read_command :
    (capacity : ℕ) (command : Bytes) (tag : ℕ)
    → length command + 15 ≤ capacity
    → length command < 2 ^ 32
    → 0 < tag
    → tag < 256
    → (message : Bytes) × (next : ℕ) × (write_message capacity command tag ≡ ok (message, next))
      × (read_command message ≡ some (tag, command))
      × (length message ≤ capacity)
      × (length message % 4 ≡ 0)
      × (0 < next)
      × (next < 256)
      × (next ≢ tag)
unfolding write_message take_tag
write_message-read_command capacity command tag fits small positive byte =
    let n = length-outgoing tag command in
    let next : ℕ = (take_tag tag).1 in
    (
      outgoing tag command,
      next,
      ground arith,
      read_command-outgoing tag command small,
      omega arith,
      omega arith,
      ground arith,
      ground arith,
      ground arith,
    )
