-- ===== src/Idt/Print.antt =====
-- Every handler's message is printed as it is.
use Prim.Native.String.{String}
use ece391_mp.Prelude.{ℕ, zero, suc, ◌≡◌, refl, arith, List, [], ◌∷◌, length, get_or, some}
use ece391_mp.Machine.{Machine}
use ece391_mp.Screen.{Screen}
use ece391_mp.Printf.Plain.{put_all, IsPlain, printf-plain}
use ece391_mp.Idt.Messages.{codes, excpt_messages, irq_messages, excpt_handler, irq_handler}

abbrev AllPlain : List String → Type 0
AllPlain [] = Unit {0}
AllPlain (t ∷ ts) = IsPlain (codes t) × AllPlain ts

IsPlain-get_or : (ts : List String) (n : ℕ) → AllPlain ts → IsPlain (codes (get_or ts n ""))
IsPlain-get_or [] n h = tt
IsPlain-get_or (t ∷ ts) zero (h, hs) = h
IsPlain-get_or (t ∷ ts) (suc n) (h, hs) = IsPlain-get_or ts n hs

excpt_messages-AllPlain : AllPlain excpt_messages
unfolding excpt_messages
excpt_messages-AllPlain = omega arith

irq_messages-AllPlain : AllPlain irq_messages
unfolding irq_messages
irq_messages-AllPlain = omega arith

module _ (key_index fuel : ℕ) (args : ℕ → ℕ) (conv_buf : ℕ) (n : ℕ) (s : Screen) where
  -- An exception's handler puts the message of its number on the screen, character by character.
  pub excpt_handler-put_all :
      let text = codes (get_or excpt_messages n "") in
      excpt_handler key_index fuel args conv_buf n s ≡ some (put_all key_index text s, length text)
  unfolding excpt_handler
  excpt_handler-put_all =
      printf-plain key_index fuel _ args conv_buf s
        (IsPlain-get_or excpt_messages n excpt_messages-AllPlain)

  -- So does an interrupt's handler, which then ends the interrupt at the master controller only.
  pub irq_handler-put_all :
      (hw : Machine) (h : hw.State)
      → irq_handler key_index fuel args conv_buf hw n s h
        ≡ some (put_all key_index (codes (get_or irq_messages n "")) s, hw.outb 0x20 0x20 h)
  unfolding irq_handler
  irq_handler-put_all hw h = ground (
    arith,
    printf-plain key_index fuel (codes (get_or irq_messages n "")) args conv_buf s
        (IsPlain-get_or irq_messages n irq_messages-AllPlain),
  )

newline_code : codes "a\n" ≡ b'a' ∷ b'\n' ∷ []
newline_code = refl
