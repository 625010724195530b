-- ===== src/Control/Server/Wire.antt =====
-- host_control_plane/control_center.py: `recv_framed`, which reads one frame from a connection. A
-- connection is the pieces in which its bytes arrive; after the last one it is closed, or raises.
use mathlib.Core.Path.{subst}
use ganglion_oob.Prelude.{
  ℕ, zero, suc, ◌-◌, ◌≤◌, ◌<◌, Option, none, some, false, List, [], ◌∷◌, ◌++◌, ◌≡◌, refl, sym, ap,
  ◌∙◌, inl, inr, Bool-cases, if◌then◌else◌, ltb, leb, arith, length, length-append, take, drop,
  take-append-drop, take-append_exact, drop-append_exact, length-take, length-drop, All,
}
use ganglion_oob.Prelude.Bytes.{Bytes, pack, unpack_from, unpack-pack, length-pack}
use mathlib.Core.List.{append_assoc}

abbrev pub Connection : Type 0
Connection = List Bytes

-- `conn.recv(n)`: at most `n` bytes of the next piece; none when the connection is closed.
unfoldable pub recv : ℕ → Connection → Bytes × Connection
recv n [] = ([], [])
recv n (piece ∷ rest) =
    if leb (length piece) n then (piece, rest) else (take n piece, drop n piece ∷ rest)

-- `_recv_exact`, the loop with fuel; `none` is a connection that ends too early, or no fuel.
unfoldable pub recv_loop : ℕ → ℕ → Bytes → Connection → Option (Bytes × Connection)
unfolding recv
recv_loop zero n buf conn = none
recv_loop (suc fuel) n buf conn =
    let got = recv (n - length buf) conn in
    let more = recv_loop fuel n (buf ++ got.0) got.1 in
    if ltb (length buf) n then elim got.0 [ [] ↦ none | _ ∷ _ ↦ more ] else some (buf, conn)

unfoldable pub recv_exact : ℕ → Connection → Option (Bytes × Connection)
unfolding recv_loop
recv_exact n conn = recv_loop (suc n) n [] conn

abbrev pub max_frame : ℕ
max_frame = 10485760

-- The four bytes of the length, then the frame: one that is too large is dropped.
unfoldable pub recv_framed : Connection → Option Bytes
recv_framed conn = elim (recv_exact 4 conn) [
  | none ↦ none
  | some (header, conn') ↦
      if ltb max_frame (unpack_from 0 header)
      then none
      else elim (recv_exact (unpack_from 0 header) conn') [ none ↦ none | some (raw, _) ↦ some raw ]
]

-- All bytes that arrive.
unfoldable pub concat : Connection → Bytes
concat [] = []
concat (piece ∷ rest) = piece ++ concat rest

abbrev pub IsFilled : Bytes → Type 0
IsFilled piece = 0 < length piece

-- What one call of recv gives: some bytes, no more than asked for, and the rest is still to come.
abbrev Got : ℕ → Connection → Bytes × Connection → Type 0
Got n conn r =
    (0 < length r.0) × (length r.0 ≤ n) × (r.0 ++ concat r.1 ≡ concat conn) × All IsFilled r.1

recv-Got :
    (n : ℕ) (conn : Connection)
    → 0 < n
    → 0 < length (concat conn)
    → All IsFilled conn
    → Got n conn (recv n conn)
unfolding recv concat
recv-Got n [] pos_n more h = absurd (omega arith)
recv-Got n (piece ∷ rest) pos_n more h = elim (Bool-cases (leb (length piece) n)) [
  | inl e ↦ rw e (h.0, ground arith, refl, h.1)
  | inr e ↦
      let long : n < length piece = ground arith in
      rw e (
        omega (arith, length-take n piece),
        omega (arith, length-take n piece),
        sym (append_assoc (take n piece) (drop n piece) (concat rest))
            ∙ ap (λ l. l ++ concat rest) (take-append-drop n piece),
        (omega (arith, length-drop n piece), h.1),
      )
]

continues :
    (got : Bytes) (more : Option (Bytes × Connection))
    → 0 < length got
    → (elim got [ [] ↦ none | _ ∷ _ ↦ more ]) ≡ more
continues [] more h = absurd (omega arith)
continues (x ∷ xs) more h = refl

recv_loop-reads :
    (fuel n : ℕ) (buf : Bytes) (conn : Connection) (frame rest : Bytes)
    → length frame ≡ n
    → buf ++ concat conn ≡ frame ++ rest
    → length buf ≤ n
    → n - length buf < fuel
    → All IsFilled conn
    → (conn' : Connection) × (recv_loop fuel n buf conn ≡ some (frame, conn'))
      × (concat conn' ≡ rest)
      × All IsFilled conn'
unfolding recv_loop
recv_loop-reads zero n buf conn frame rest size same le less h = absurd (omega arith)
recv_loop-reads (suc fuel) n buf conn frame rest size same le less h =
    elim (Bool-cases (ltb (length buf) n)) [
      | inl short ↦
          let wanted : 0 < n - length buf = ground arith in
          let total = ap length same in
          let coming : 0 < length (concat conn) =
            omega (arith, length-append buf (concat conn), length-append frame rest) in
          let (some_bytes, few, kept, filled) = recv-Got (n - length buf) conn wanted coming h in
          let got = recv (n - length buf) conn in
          let (conn', e, left, filled') =
            recv_loop-reads fuel n (buf ++ got.0) got.1 frame rest size
              (append_assoc buf got.0 (concat got.1) ∙ ap (λ l. buf ++ l) kept ∙ same)
              (omega (arith, length-append buf got.0)) (omega (arith, length-append buf got.0))
              filled in
          (
            conn',
            rw (short, recv_loop)
                (continues got.0 (recv_loop fuel n (buf ++ got.0) got.1) some_bytes ∙ e),
            left,
            filled',
          )
      | inr full ↦
          let same_size : length buf ≡ length frame = ground arith in
          let frames : buf ≡ frame =
            sym (take-append_exact buf (concat conn))
            ∙ ap (take (length buf)) same
            ∙ ap (λ k. take k (frame ++ rest)) same_size
            ∙ take-append_exact frame rest in
          let rests : concat conn ≡ rest =
            sym (drop-append_exact buf (concat conn))
            ∙ ap (drop (length buf)) same
            ∙ ap (λ k. drop k (frame ++ rest)) same_size
            ∙ drop-append_exact frame rest in
          (conn, rw (full, recv_loop) (ap (λ b. some (b, conn)) frames), rests, h)
    ]

recv_exact-reads :
    (conn : Connection) (frame rest : Bytes)
    → concat conn ≡ frame ++ rest
    → All IsFilled conn
    → (conn' : Connection) × (recv_exact (length frame) conn ≡ some (frame, conn'))
      × (concat conn' ≡ rest)
      × All IsFilled conn'
unfolding recv_exact
recv_exact-reads conn frame rest same h =
    recv_loop-reads (suc (length frame)) (length frame) [] conn frame rest refl same (omega arith)
      (omega arith) h

-- However the bytes of a frame are cut into pieces on the way, the frame is read whole: if what
-- arrives starts with the length in four bytes and the frame, of at most ten mebibytes, then
-- recv_framed returns that frame.
pub recv_framed-pack :
    (conn : Connection) (frame rest : Bytes)
    → length frame ≤ max_frame
    → concat conn ≡ pack 4 (length frame) ++ (frame ++ rest)
    → All IsFilled conn
    → recv_framed conn ≡ some frame
unfolding recv_framed
recv_framed-pack conn frame rest small same h =
    let header = pack 4 (length frame) in
    let (conn', e, left, h') = recv_exact-reads conn header (frame ++ rest) same h in
    let four : recv_exact 4 conn ≡ some (header, conn') =
      subst (λ k. recv_exact k conn ≡ some (header, conn')) (length-pack 4 (length frame)) e in
    let (conn'', e', left', h'') = recv_exact-reads conn' frame rest left h' in
    let size : unpack_from 0 header ≡ length frame = unpack-pack 4 (length frame) (omega arith) in
    let fits : ltb max_frame (length frame) ≡ false = ground arith in
    rw (four, recv_framed) (rw (size, fits, e') refl)
