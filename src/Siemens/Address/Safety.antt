-- ===== src/Siemens/Address/Safety.antt =====
-- `parseSiemensAddress` returns for every text.
use go_iot_client.Base.{ℕ, Option, none, some, List, [], ◌∷◌, map, arith}
use go_iot_client.Base.Int.{ℤ}
use go_iot_client.Base.Outcome.{Outcome, ok, err, panic, NoPanic, bind}
use go_iot_client.Text.{trim_space, to_upper, atoi, split, strip_prefix}
use go_iot_client.Siemens.Address.{
  in_range, parsed, offset_text, parse_parts, area_of, parse_area, parse_by, parse_upper,
  parse_siemens_address,
}

in_range-NoPanic : (low : ℕ) (o : Option ℤ) → NoPanic (in_range low o)
in_range-NoPanic low none = tt
in_range-NoPanic low (some z) = ground arith

parsed-NoPanic : {A : Type 0} (o : Option A) → NoPanic (parsed o)
parsed-NoPanic none = tt
parsed-NoPanic (some a) = tt

bind-NoPanic :
    {A B : Type 0} (r : Outcome A) (f : A → Outcome B)
    → NoPanic r
    → ((a : A) → NoPanic (f a))
    → NoPanic (bind r f)
bind-NoPanic (ok a) f h k = k a
bind-NoPanic (err e) f h k = tt
bind-NoPanic panic f h k = h

parse_parts-NoPanic : (p : List ℕ × List (List ℕ)) → NoPanic (parse_parts p)
parse_parts-NoPanic (number, []) = tt
parse_parts-NoPanic (number, part ∷ []) =
    bind-NoPanic (in_range 1 (atoi number)) _ (in_range-NoPanic 1 (atoi number)) λ db.
      bind-NoPanic (parsed (offset_text part)) _ (parsed-NoPanic (offset_text part))
        λ text. bind-NoPanic (in_range 0 (atoi text)) _ (in_range-NoPanic 0 (atoi text)) (λ _. tt)
parse_parts-NoPanic (number, part ∷ next ∷ rest) = tt

parse_area-NoPanic : (addr : List ℕ) → NoPanic (parse_area addr)
parse_area-NoPanic [] = tt
parse_area-NoPanic (c ∷ text) =
    bind-NoPanic (in_range 0 (atoi text)) _ (in_range-NoPanic 0 (atoi text))
      λ offset. bind-NoPanic (parsed (area_of c)) _ (parsed-NoPanic (area_of c)) (λ _. tt)

parse_by-NoPanic : (o : Option (List ℕ)) (addr : List ℕ) → NoPanic (parse_by o addr)
parse_by-NoPanic (some text) addr = parse_parts-NoPanic (split b'.' text)
parse_by-NoPanic none addr = parse_area-NoPanic addr

pub parse_siemens_address-NoPanic : (address : List ℕ) → NoPanic (parse_siemens_address address)
unfolding parse_siemens_address parse_upper
parse_siemens_address-NoPanic address =
    let addr = map to_upper (trim_space address) in
    parse_by-NoPanic (strip_prefix (b'D' ∷ b'B' ∷ []) addr) addr
