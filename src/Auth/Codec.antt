-- ===== src/Auth/Codec.antt =====
-- A token library in the clear, which meets the laws that Auth/Tokens.antt asks of the one that
-- apps/api/app/core/security.py uses: a constant header, then the fields of the payload one by one.
-- It shows that the laws can be met, and lets the examples run.
use Prim.Native.Char.{Char}
use replica_ai.Common.{
  ℕ, zero, suc, ◌<◌, ◌≡◌, refl, arith, String, Bool, Option, none, some, str_eq, ltb, if◌then◌else◌,
}
use replica_ai.Common.Text.{take_chars, drop_chars}
use replica_ai.Auth.Tokens.{Claims, Jwt}

is_end : Char → Bool
is_end c = str_eq (String.◌∷◌ c String.[]) "."

-- A text, each character behind a mark, up to an end mark.
write_text : String → String → String
write_text String.[] rest = String.◌∷◌ "." rest
write_text (String.◌∷◌ c s) rest = String.◌∷◌ "c" (String.◌∷◌ c (write_text s rest))

abbrev behind : Char → Option (String × String) → Option (String × String)
behind c none = none
behind c (some (s, rest)) = some (String.◌∷◌ c s, rest)

read_text : String → Option (String × String)
unfolding is_end
read_text String.[] = none
read_text (String.◌∷◌ m String.[]) = if is_end m then some (String.[], String.[]) else none
read_text (String.◌∷◌ m (String.◌∷◌ c s)) =
    let more = read_text s in if is_end m then some (String.[], String.◌∷◌ c s) else behind c more

read-write_text : (s rest : String) → read_text (write_text s rest) ≡ some (s, rest)
unfolding read_text write_text
read-write_text String.[] String.[] = refl
read-write_text String.[] (String.◌∷◌ c rest) = refl
read-write_text (String.◌∷◌ c s) rest = rw (read-write_text s rest) refl

write_number : ℕ → String → String
write_number zero rest = String.◌∷◌ "." rest
write_number (suc n) rest = String.◌∷◌ "1" (write_number n rest)

abbrev one_more : Option (ℕ × String) → Option (ℕ × String)
one_more none = none
one_more (some (n, rest)) = some (suc n, rest)

read_number : String → Option (ℕ × String)
unfolding is_end
read_number String.[] = none
read_number (String.◌∷◌ m s) =
    let more = read_number s in if is_end m then some (0, s) else one_more more

read-write_number : (n : ℕ) (rest : String) → read_number (write_number n rest) ≡ some (n, rest)
unfolding read_number write_number
read-write_number zero rest = refl
read-write_number (suc n) rest = rw (read-write_number n rest) refl

write_field : Option String → String → String
unfolding write_text
write_field none rest = String.◌∷◌ "." rest
write_field (some s) rest = String.◌∷◌ "s" (write_text s rest)

abbrev present : Option (String × String) → Option (Option String × String)
present none = none
present (some (s, rest)) = some (some s, rest)

read_field : String → Option (Option String × String)
unfolding is_end
read_field String.[] = none
read_field (String.◌∷◌ m s) = if is_end m then some (none, s) else present (read_text s)

read-write_field :
    (f : Option String) (rest : String) → read_field (write_field f rest) ≡ some (f, rest)
unfolding read_field write_field
read-write_field none rest = refl
read-write_field (some s) rest = rw (read-write_text s rest) refl

-- The header, longer than the part of a token that the code reads.
header : ℕ → String → String
header zero rest = rest
header (suc n) rest = String.◌∷◌ "e" (header n rest)

abbrev body : String → String
body s = drop_chars 20 s

write_payload : Claims → String
unfolding write_field write_number
write_payload c = write_number c.expires_at (
    write_field c.sub (
      write_field c.role (
        write_field c.kind (
          write_field c.jti (
            write_field c.instance_id (
              write_field c.rule_id
                (write_field c.access_level (write_field c.grantee_name ""))))))))

infixl 5 ◌then_read◌
abbrev ◌then_read◌ : {A B : Type 0} → Option (A × String) → (A → String → Option B) → Option B
none then_read next = none
some (a, rest) then_read next = next a rest

read_payload : String → Option Claims
read_payload text = read_number text then_read λ expires_at s0. read_field s0 then_read λ sub s1.
    read_field s1 then_read λ role s2. read_field s2 then_read λ kind s3.
    read_field s3 then_read λ jti s4. read_field s4 then_read λ instance_id s5.
    read_field s5 then_read λ rule_id s6. read_field s6 then_read λ access_level s7.
    read_field s7 then_read λ grantee_name s8. some (record {
      sub = sub;
      role = role;
      kind = kind;
      expires_at = expires_at;
      jti = jti;
      instance_id = instance_id;
      rule_id = rule_id;
      access_level = access_level;
      grantee_name = grantee_name;
    })

read-write_payload : (c : Claims) → read_payload (write_payload c) ≡ some c
unfolding read_payload write_payload
read-write_payload c = simp (read-write_number, read-write_field)

encode : Claims → String
encode c = header 20 (write_payload c)

abbrev if_running : ℕ → Option Claims → Option Claims
if_running now none = none
if_running now (some c) = if ltb now c.expires_at then some c else none

decode : ℕ → String → Option Claims
decode now token = if_running now (read_payload (body token))

decode-encode : (now : ℕ) (c : Claims) → now < c.expires_at → decode now (encode c) ≡ some c
unfolding decode encode header
decode-encode now c h = ground (arith, read-write_payload c)

same_header : (c d : Claims) → take_chars 16 (encode c) ≡ take_chars 16 (encode d)
unfolding encode header
same_header c d = refl

pub clear_jwt : Jwt
unfolding encode decode
clear_jwt = record {
  encode = encode;
  decode = decode;
  decode-encode = decode-encode;
  same_header = same_header;
}
