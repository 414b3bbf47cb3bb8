-- ===== src/Uart/Config.antt =====
-- `UartConfig` of nets/uart.rs, and the settings that it sends.
use lager_rs.Prelude.{ℕ, Bool, Option, none, some, Text, str}
use lager_rs.Json.{Value, boolean, number, pos_int, string, object, Fields, end, insert}

pub data Parity : Type 0 where
  no_parity even odd mark space : Parity

-- `Parity::as_str`
unfoldable pub parity_text : Parity → Text
parity_text no_parity = str "none"
parity_text even = str "even"
parity_text odd = str "odd"
parity_text mark = str "mark"
parity_text space = str "space"

pub data StopBits : Type 0 where
  one one_point_five two : StopBits

-- `StopBits::as_str`
unfoldable pub stopbits_text : StopBits → Text
stopbits_text one = str "1"
stopbits_text one_point_five = str "1.5"
stopbits_text two = str "2"

pub record UartConfig : Type 0 where
  pub baudrate : Option ℕ
  pub bytesize : Option ℕ
  pub parity : Option Parity
  pub stopbits : Option StopBits
  pub xonxoff : Option Bool
  pub rtscts : Option Bool
  pub dsrdtr : Option Bool
  pub opost : Option Bool

abbrev pub put {ℓ} : {A : Type ℓ} → Text → (A → Value) → Option A → Fields → Fields
put k f none m = m
put k f (some a) m = insert k (f a) m

abbrev pub number_value : ℕ → Value
number_value n = number (pos_int n)

unfoldable pub overrides : UartConfig → Value
unfolding insert parity_text stopbits_text
overrides c =
    let o = put (str "baudrate") number_value c.baudrate end in
    let o = put (str "bytesize") number_value c.bytesize o in
    let o = put (str "parity") (λ p. string (parity_text p)) c.parity o in
    let o = put (str "stopbits") (λ s. string (stopbits_text s)) c.stopbits o in
    let o = put (str "xonxoff") boolean c.xonxoff o in
    let o = put (str "rtscts") boolean c.rtscts o in
    let o = put (str "dsrdtr") boolean c.dsrdtr o in object (put (str "opost") boolean c.opost o)
