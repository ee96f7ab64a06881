-- ===== src/Packet/Resize.antt =====
-- toxtun/packet.c: what enet_packet_resize keeps of a packet that has a buffer of its own.
use toxsh.Prelude.{
  ℕ, zero, suc, ◌-◌, ◌≤◌, ◌<◌, min, ◌≡◌, refl, ap, Bool, true, false, leb, List, [], ◌∷◌, ◌++◌,
  take, replicate, length, length-append, length-take, length-replicate, none, arith,
}
use toxsh.Memory.{Packet}
use toxsh.Packet.{is_no_allocate, packet_resize}

module _ {ℓ} {A : Type ℓ} where
  take-take_append :
      (m d : ℕ) (xs ys : List A) → m ≤ d → d ≤ length xs → take m (take d xs ++ ys) ≡ take m xs
  take-take_append zero d xs ys h h' = refl
  take-take_append (suc m) zero xs ys h h' = absurd (omega arith)
  take-take_append (suc m) (suc d) [] ys h h' = absurd (omega arith)
  take-take_append (suc m) (suc d) (x ∷ xs) ys h h' =
      ap (λ zs. x ∷ zs) (take-take_append m d xs ys (omega arith) (omega arith))

  length-grown :
      (d n : ℕ) (xs : List A) (v : A)
      → d ≤ length xs
      → d < n
      → n ≤ length (take d xs ++ replicate (n - d) v)
  length-grown d n xs v h h' = omega (
    arith,
    length-append (take d xs) (replicate (n - d) v),
    length-take d xs,
    length-replicate (n - d) v,
  )

-- What comes of a resize to `n`, for each of the two results.
unfoldable pub IsResized : Bool → Packet → ℕ → Bool × Packet → Type 0
IsResized alloc p n (true, p') =
    (p'.data_length ≡ n)
    × (n ≤ length p'.content)
    × (take (min n p.data_length) p'.content ≡ take (min n p.data_length) p.content)
IsResized alloc p n (false, p') = (alloc ≡ false) × (p.data_length < n) × (p' ≡ p)

-- A packet with a buffer of its own that holds its bytes, after a resize: the length is the new one, the
-- buffer holds as many bytes, and the first of them are the bytes of the old packet, as far as they fit.
-- A resize that fails is one that grows, when malloc fails, and changes nothing.
pub packet_resize-IsResized :
    (alloc : Bool) (p : Packet) (n : ℕ)
    → is_no_allocate p.flags ≡ false
    → p.data_length ≤ length p.content
    → IsResized alloc p n (packet_resize alloc p n)
unfolding packet_resize IsResized
packet_resize-IsResized alloc p n owned covers = decided (leb n p.data_length) refl alloc
  where
    decided :
        (b : Bool) → leb n p.data_length ≡ b → (a : Bool) → IsResized a p n (packet_resize a p n)
    decided true e a = rw (packet_resize, e) (refl, ground arith, refl)
    decided false e true =
        rw (packet_resize, e, owned)
          (
            refl,
            length-grown p.data_length n p.content none covers (ground arith),
            take-take_append (min n p.data_length) p.data_length p.content _ (omega arith) covers,
          )
    decided false e false = rw (packet_resize, e, owned) (refl, ground arith, refl)
