-- ===== src/Wire/Layout/Trip.antt =====
-- toxtun/enetinc/enet/protocol.h: commands that go out and come in.
use mathlib.Core.List.{append_assoc}
use toxsh.Prelude.{
  ℕ, ap, ◌+◌, ◌^◌, ◌<◌, ◌≡◌, refl, List, [], ◌∷◌, ◌++◌, Option, none, some, All, map, length,
  length-append, subst, sym, inl, inr, ◌⊎◌, true, Bool, ◌||◌, ◌==◌, ==_iff, get_elem?, get_or,
  arith,
}
use toxsh.Wire.{command_sizes, Protocol, Body, command_size}
use toxsh.Wire.Command
use toxsh.Wire.Layout.{
  Kind, byte, short, long, native, Field, width, put, get, put_all, get_all, header_fields,
  body_fields, encode, decode, decode_behind, decode_body, members,
}
use toxsh.Wire.{
  acknowledge, connect, verify_connect, disconnect, ping, send_reliable, send_unreliable,
  send_unsequenced, send_fragment, bandwidth_limit, throttle_configure,
}

-- A value that fits its field.
abbrev pub Fits : Field → Type 0
Fits (k, n) = n < 256 ^ width k

get-put : (f : Field) (rest : List ℕ) → Fits f → get f.0 (put f.0 f.1 ++ rest) ≡ some (f.1, rest)
unfolding put get width
get-put (byte, n) rest h = ap (λ (m : ℕ). some (m, rest)) (omega arith)
get-put (short, n) rest h = ap (λ (m : ℕ). some (m, rest)) (omega arith)
get-put (long, n) rest h = ap (λ (m : ℕ). some (m, rest)) (omega arith)
get-put (native, n) rest h = ap (λ (m : ℕ). some (m, rest)) (omega arith)

get_all-done : (bs : List ℕ) → get_all [] bs ≡ some ([], bs)
unfolding get_all
get_all-done bs = refl

get_all-next :
    (k : Kind) (ks : List Kind) (bs rest rest' : List ℕ) (n : ℕ) (ns : List ℕ)
    → get k bs ≡ some (n, rest)
    → get_all ks rest ≡ some (ns, rest')
    → get_all (k ∷ ks) bs ≡ some (n ∷ ns, rest')
unfolding get_all
get_all-next k ks bs rest rest' n ns e e' = rw (get_all, e, e') refl

get_all-put_all :
    (fs : List Field) (rest : List ℕ)
    → All Fits fs
    → get_all (map (λ f. f.0) fs) (put_all fs ++ rest) ≡ some (map (λ f. f.1) fs, rest)
unfolding put_all
get_all-put_all [] rest h = get_all-done rest
get_all-put_all (f ∷ fs) rest h =
    subst (λ bs. get_all (map (λ f. f.0) (f ∷ fs)) bs ≡ some (map (λ f. f.1) (f ∷ fs), rest))
      (sym (append_assoc (put f.0 f.1) (put_all fs) rest))
      (get_all-next f.0 _ _ (put_all fs ++ rest) rest f.1 _ (get-put f (put_all fs ++ rest) h.0)
        (get_all-put_all fs rest h.1))

-- The member of the union that a command number stands for.
unfoldable pub belongs : ℕ → Body → Bool
belongs n (acknowledge _ _) = n == 1
belongs n (connect _ _) = n == 2
belongs n (verify_connect _) = n == 3
belongs n (disconnect _) = n == 4
belongs n ping = n == 5
belongs n (send_reliable _) = n == 6
belongs n (send_unreliable _ _) = n == 7
belongs n (send_fragment _) = (n == 8) || (n == 12)
belongs n (send_unsequenced _ _) = n == 9
belongs n (bandwidth_limit _ _) = n == 10
belongs n (throttle_configure _ _ _) = n == 11

-- The entry of the members' table for a body: its kinds, and the body that is built of its values.
abbrev IsRead : Body → ℕ → Type 0
IsRead body n =
    (build : List ℕ → Option Body) × (get_elem? (([], λ ns. none) ∷ members) n
      ≡ some (map (λ f. f.0) (body_fields body), build))
    × (build (map (λ f. f.1) (body_fields body)) ≡ some body)

equal : (b : Body) (n m : ℕ) → (n == m) ≡ true → IsRead b m → IsRead b n
equal b n m e r = subst (IsRead b) (sym ((==_iff n m).0 e)) r

fragment_cases : (n : ℕ) → ((n == 8) || (n == 12)) ≡ true → (n ≡ 8) ⊎ (n ≡ 12)
fragment_cases n e = ground arith

belongs-IsRead : (n : ℕ) (b : Body) → belongs n b ≡ true → IsRead b n
unfolding belongs members body_fields
belongs-IsRead n (acknowledge a b) e = equal _ n 1 e (_, refl, refl)
belongs-IsRead n (connect h d) e = equal _ n 2 e (_, refl, refl)
belongs-IsRead n (verify_connect h) e = equal _ n 3 e (_, refl, refl)
belongs-IsRead n (disconnect d) e = equal _ n 4 e (_, refl, refl)
belongs-IsRead n ping e = equal _ n 5 e (_, refl, refl)
belongs-IsRead n (send_reliable a) e = equal _ n 6 e (_, refl, refl)
belongs-IsRead n (send_unreliable a b) e = equal _ n 7 e (_, refl, refl)
belongs-IsRead n (send_fragment f) e = elim (fragment_cases n e) [
  | inl e' ↦ subst (IsRead (send_fragment f)) (sym e') (_, refl, refl)
  | inr e' ↦ subst (IsRead (send_fragment f)) (sym e') (_, refl, refl)
]
belongs-IsRead n (send_unsequenced a b) e = equal _ n 9 e (_, refl, refl)
belongs-IsRead n (bandwidth_limit a b) e = equal _ n 10 e (_, refl, refl)
belongs-IsRead n (throttle_configure a b c) e = equal _ n 11 e (_, refl, refl)

-- The values of a command fit their fields, and its body is the member that its number stands for.
pub record IsSound (c : Protocol) : Type 0 where
  pub header_fits : All Fits (header_fields c.header)
  pub body_fits : All Fits (body_fields c.body)
  pub member : belongs (Command.number c.command) c.body ≡ true

decode-parts :
    (c : Protocol) (bytes rest rest' : List ℕ) (build : List ℕ → Option Body)
    → get_all (byte ∷ byte ∷ short ∷ []) bytes
      ≡ some (c.command ∷ c.channel_id ∷ c.reliable_sequence_number ∷ [], rest)
    → get_elem? (([], λ ns. none) ∷ members) (Command.number c.command)
      ≡ some (map (λ f. f.0) (body_fields c.body), build)
    → get_all (map (λ f. f.0) (body_fields c.body)) rest
      ≡ some (map (λ f. f.1) (body_fields c.body), rest')
    → build (map (λ f. f.1) (body_fields c.body)) ≡ some c.body
    → decode bytes ≡ some (c, rest')
unfolding decode decode_behind decode_body
decode-parts c bytes rest rest' build head entry values built =
    rw (decode, head, decode_behind, entry, decode_body, values, built) refl

length-body :
    (n : ℕ) (b : Body)
    → belongs n b ≡ true
    → length (put_all (body_fields b)) + 4 ≡ get_or command_sizes n 0
unfolding belongs put_all put body_fields
length-body n (acknowledge a b) e = rw ((==_iff n 1).0 e) refl
length-body n (connect h d) e = rw ((==_iff n 2).0 e) refl
length-body n (verify_connect h) e = rw ((==_iff n 3).0 e) refl
length-body n (disconnect d) e = rw ((==_iff n 4).0 e) refl
length-body n ping e = rw ((==_iff n 5).0 e) refl
length-body n (send_reliable a) e = rw ((==_iff n 6).0 e) refl
length-body n (send_unreliable a b) e = rw ((==_iff n 7).0 e) refl
length-body n (send_fragment f) e = elim (fragment_cases n e) [
  | inl e' ↦ rw e' refl
  | inr e' ↦ rw e' refl
]
length-body n (send_unsequenced a b) e = rw ((==_iff n 9).0 e) refl
length-body n (bandwidth_limit a b) e = rw ((==_iff n 10).0 e) refl
length-body n (throttle_configure a b c) e = rw ((==_iff n 11).0 e) refl

-- A command that is sent takes the bytes that commandSizes lists for its number, if its body is the
-- member of that number.
pub length-encode :
    (c : Protocol)
    → belongs (Command.number c.command) c.body ≡ true
    → length (encode c) ≡ command_size c.command
unfolding encode header_fields put_all put command_size
length-encode c e = omega (
  arith,
  length-body (Command.number c.command) c.body e,
  length-append (put_all (header_fields c.header)) (put_all (body_fields c.body)),
)

-- A command that is sent and read again is the same command, and what stands behind it is left: if its
-- values fit their fields and its body is the member of its number.
pub decode-encode :
    (c : Protocol) (rest : List ℕ) → IsSound c → decode (encode c ++ rest) ≡ some (c, rest)
unfolding encode header_fields
decode-encode c rest sound =
    let (build, entry, built) = belongs-IsRead (Command.number c.command) c.body sound.member in
    subst (λ bs. decode bs ≡ some (c, rest))
      (sym (append_assoc (put_all (header_fields c.header)) (put_all (body_fields c.body)) rest))
      (decode-parts c _ (put_all (body_fields c.body) ++ rest) rest build
        (get_all-put_all (header_fields c.header) (put_all (body_fields c.body) ++ rest)
          sound.header_fits)
        entry (get_all-put_all (body_fields c.body) rest sound.body_fits) built)
