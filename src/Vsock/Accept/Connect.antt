-- ===== src/Vsock/Accept/Connect.antt =====
-- The first line of a host client: `parse_connect`.
use kitsune.Base.{
  ℕ, ◌<◌, ◌≡◌, ◌≢◌, ◌↔◌, refl, sym, ◌∙◌, true, false, not, ◌||◌, List, [], ◌∷◌, ◌++◌, Option, none,
  some, arith, if◌then◌else◌, inl, inr, Option-cases, ◌==◌, ==_refl, u32_mod, all, is_empty,
}
use kitsune.Base.Decimal.{
  parse_u32, parse_u32-value, value, decimal, value-decimal, all-decimal, is_empty-decimal,
  is_ascii_digit,
}
use kitsune.Vsock.Accept.{strip_prefix, connect_prefix, parse_connect}

-- A line asks for a port if it is the word, a blank and the decimal number of the port: one
-- that a u32 other than 0 can be.
pub record Asks (line : List ℕ) (port : ℕ) : Type 0 where
  pub digits : List ℕ
  pub shape : line ≡ connect_prefix ++ digits
  pub nonempty : is_empty digits ≡ false
  pub decimal : all is_ascii_digit digits ≡ true
  pub number : value 0 digits ≡ port
  pub positive : port ≢ 0
  pub fits : port < u32_mod

strip_prefix-append : (ps rest : List ℕ) → strip_prefix ps (ps ++ rest) ≡ some rest
unfolding strip_prefix
strip_prefix-append [] rest = refl
strip_prefix-append (p ∷ ps) rest = rw (==_refl p) (strip_prefix-append ps rest)

strip_prefix-inv : (ps line rest : List ℕ) → strip_prefix ps line ≡ some rest → line ≡ ps ++ rest
unfolding strip_prefix
strip_prefix-inv [] line rest e = cc
strip_prefix-inv (p ∷ ps) [] rest e = cc
strip_prefix-inv (p ∷ ps) (c ∷ cs) rest e = ground (arith, strip_prefix-inv ps cs rest)

-- What `parse_connect` does with the text behind the prefix.
port_of : List ℕ → Option ℕ
port_of rest =
    if is_empty rest || not (all is_ascii_digit rest)
    then none
    else elim (parse_u32 0 rest) [ none ↦ none | some port ↦ if port == 0 then none else some port ]

port_of-some :
    (rest : List ℕ) (port : ℕ)
    → port_of rest ≡ some port
    → (is_empty rest ≡ false)
      × (all is_ascii_digit rest ≡ true)
      × (value 0 rest ≡ port)
      × (port ≢ 0)
      × (port < u32_mod)
unfolding port_of
port_of-some rest port e = ground (arith, parse_u32-value 0 rest)

port_of-value :
    (rest : List ℕ) (port : ℕ)
    → is_empty rest ≡ false
    → all is_ascii_digit rest ≡ true
    → value 0 rest ≡ port
    → port ≢ 0
    → port < u32_mod
    → port_of rest ≡ some port
unfolding port_of
port_of-value rest port a b c d f = ground (arith, parse_u32-value 0 rest)

parse_connect_of :
    (line rest : List ℕ)
    → strip_prefix connect_prefix line ≡ some rest
    → parse_connect line ≡ port_of rest
unfolding parse_connect port_of
parse_connect_of line rest e = rw (e, parse_connect)

parse_connect_no_prefix :
    (line : List ℕ) → strip_prefix connect_prefix line ≡ none → parse_connect line ≡ none
unfolding parse_connect
parse_connect_no_prefix line e = rw (e, parse_connect)

-- `parse_connect` accepts exactly the lines that ask for a port, and returns that port.
pub parse_connect_iff :
    (line : List ℕ) (port : ℕ) → (parse_connect line ≡ some port) ↔ Asks line port
parse_connect_iff line port = (accepted, refused)
  where
    asks :
        (rest : List ℕ)
        → strip_prefix connect_prefix line ≡ some rest
        → parse_connect line ≡ some port
        → Asks line port
    asks rest s e =
        let parts = port_of-some rest port (sym (parse_connect_of line rest s) ∙ e) in
        record {
          digits = rest;
          shape = strip_prefix-inv connect_prefix line rest s;
          nonempty = parts.0;
          decimal = parts.1;
          number = parts.2;
          positive = parts.3;
          fits = parts.4;
        }

    no_port : none ≡ some port → ⊥
    no_port h = cc

    accepted : parse_connect line ≡ some port → Asks line port
    accepted e = elim (Option-cases (strip_prefix connect_prefix line)) [
      | inl n ↦ absurd (no_port (sym (parse_connect_no_prefix line n) ∙ e))
      | inr (rest, s) ↦ asks rest s e
    ]

    refused : Asks line port → parse_connect line ≡ some port
    refused a =
        parse_connect_of line a.digits (rw (a.shape) (strip_prefix-append connect_prefix a.digits))
        ∙ port_of-value a.digits port a.nonempty a.decimal a.number a.positive a.fits

-- The line that a client writes for a port of 32 bits, not 0, is read back as that port.
pub parse_connect-decimal :
    (port : ℕ)
    → port ≢ 0
    → port < u32_mod
    → parse_connect (connect_prefix ++ decimal port) ≡ some port
parse_connect-decimal port pos fits = (parse_connect_iff _ port).1 (record {
  digits = decimal port;
  shape = refl;
  nonempty = is_empty-decimal port;
  decimal = all-decimal port;
  number = value-decimal port;
  positive = pos;
  fits = fits;
})
