-- ===== src/LpCursor/Order.antt =====
-- How cursors compare.
use cometa_backend.Base.{
  ℕ, zero, suc, ◌/◌, ◌%◌, ◌+◌, ◌^◌, ◌<◌, ◌≤◌, ◌≡◌, refl, ap, ◌∙◌, true, false, ◌&&◌, ◌||◌, [], ◌∷◌,
  arith, leb, ltb, ◌==◌,
}
use cometa_backend.Base.Exec.{ok}
use cometa_backend.Base.Int.{pos}
use cometa_backend.Base.Value.{int}
use cometa_backend.Base.Text.{Text, text, text_lt, partition, partition-append, contains}
use cometa_backend.Base.Digits.{
  fixed_decimal, fixed_decimal-append, text_lt-fixed_decimal, contains-fixed_decimal,
}
use cometa_backend.Uint64.{max_algorand_uint, require_algorand_uint64}
use cometa_backend.LpCursor.{
  event_round_width, colon, round_end_suffix, format_event_order, lp_event_order,
  lp_round_end_order,
}

-- A valid uint64 fits the fixed width.
pub uint64_fits : (n : ℕ) → n ≤ max_algorand_uint → n < 10 ^ event_round_width
uint64_fits n h = omega arith

-- The text of a round-end cursor.
abbrev pub round_end : ℕ → Text
round_end r = fixed_decimal event_round_width r (colon ∷ round_end_suffix)

-- The first part of a text that begins with a numeral and a colon.
pub partition-fixed_decimal :
    (w n : ℕ) (s : Text)
    → partition colon (fixed_decimal w n (colon ∷ s))
      ≡ record { before = fixed_decimal w n []; found = true; after = s }
partition-fixed_decimal w n s =
    ap (partition colon) (fixed_decimal-append w n (colon ∷ s))
    ∙ partition-append colon (fixed_decimal w n []) s
        (contains-fixed_decimal colon w n [] (omega arith) ∙ none_in_empty)
  where
    none_in_empty : contains colon [] ≡ false
    none_in_empty = unfold contains in refl

pub lp_event_order-format :
    (r p : ℕ) (event_id : Text) (o : Text)
    → lp_event_order (int (pos r)) event_id (int (pos p)) ≡ ok o
    → (o ≡ format_event_order r p event_id) × (r ≤ max_algorand_uint) × (p ≤ max_algorand_uint)
unfolding lp_event_order require_algorand_uint64
lp_event_order-format r p event_id o h = ground arith

snapshot_order :
    (r : ℕ)
    → r ≤ max_algorand_uint
    → lp_event_order (int (pos r)) (text "snapshot") (int (pos 0))
      ≡ ok (format_event_order r 0 (text "snapshot"))
unfolding lp_event_order require_algorand_uint64 contains
snapshot_order r h = ground arith

pub lp_round_end_order-round_end :
    (r : ℕ) → r ≤ max_algorand_uint → lp_round_end_order (int (pos r)) ≡ ok (round_end r)
unfolding lp_round_end_order
lp_round_end_order-round_end r h = ground (
  arith,
  snapshot_order r h,
  partition-fixed_decimal event_round_width r
      (fixed_decimal event_round_width 0 (colon ∷ text "snapshot")),
  fixed_decimal-append event_round_width r (colon ∷ round_end_suffix),
)

text_lt-format_event_order :
    (r1 p1 r2 p2 : ℕ) (id1 id2 : Text)
    → r1 ≤ max_algorand_uint
    → p1 ≤ max_algorand_uint
    → r2 ≤ max_algorand_uint
    → p2 ≤ max_algorand_uint
    → text_lt (format_event_order r1 p1 id1) (format_event_order r2 p2 id2)
      ≡ (ltb r1 r2 || (r1 == r2 && (ltb p1 p2 || (p1 == p2 && text_lt id1 id2))))
unfolding text_lt
text_lt-format_event_order r1 p1 r2 p2 id1 id2 a b c d = ground (
  arith,
  text_lt-fixed_decimal event_round_width r1 r2
      (colon ∷ fixed_decimal event_round_width p1 (colon ∷ id1))
      (colon ∷ fixed_decimal event_round_width p2 (colon ∷ id2)) (uint64_fits r1 a)
      (uint64_fits r2 c),
  text_lt-fixed_decimal event_round_width p1 p2 (colon ∷ id1) (colon ∷ id2) (uint64_fits p1 b)
      (uint64_fits p2 d),
)

-- Two accepted events compare as their rounds, then as their positions in the block, then as their
-- IDs.
pub text_lt-lp_event_order :
    (r1 p1 r2 p2 : ℕ) (id1 id2 o1 o2 : Text)
    → lp_event_order (int (pos r1)) id1 (int (pos p1)) ≡ ok o1
    → lp_event_order (int (pos r2)) id2 (int (pos p2)) ≡ ok o2
    → text_lt o1 o2 ≡ (ltb r1 r2 || (r1 == r2 && (ltb p1 p2 || (p1 == p2 && text_lt id1 id2))))
text_lt-lp_event_order r1 p1 r2 p2 id1 id2 o1 o2 h1 h2 =
    let (e1, a, b) = lp_event_order-format r1 p1 id1 o1 h1 in
    let (e2, c, d) = lp_event_order-format r2 p2 id2 o2 h2 in
    rw (e1, e2) (text_lt-format_event_order r1 p1 r2 p2 id1 id2 a b c d)

-- A position's numeral lies below the suffix of a snapshot.
abbrev pub StartsBelow : Text → Type 0
StartsBelow [] = ⊥
StartsBelow (c ∷ _) = c < 126

pub fixed_decimal-StartsBelow :
    (w n : ℕ) (s : Text) → StartsBelow s → StartsBelow (fixed_decimal w n s)
unfolding fixed_decimal
fixed_decimal-StartsBelow zero n s h = h
fixed_decimal-StartsBelow (suc w) n s h =
    fixed_decimal-StartsBelow w (n / 10) ((48 + n % 10) ∷ s) (omega arith)

text_lt-suffix :
    (s : Text)
    → StartsBelow s
    → (text_lt s round_end_suffix ≡ true) × (text_lt round_end_suffix s ≡ false)
unfolding text_lt
text_lt-suffix [] h = elim h [ ]
text_lt-suffix (c ∷ cs) h = ground arith

text_lt-round_end :
    (r p e : ℕ) (event_id : Text)
    → r ≤ max_algorand_uint
    → p ≤ max_algorand_uint
    → e ≤ max_algorand_uint
    → (text_lt (format_event_order r p event_id) (round_end e) ≡ leb r e)
      × (text_lt (round_end e) (format_event_order r p event_id) ≡ ltb e r)
unfolding text_lt
text_lt-round_end r p e event_id a b c = ground (
  arith,
  text_lt-fixed_decimal event_round_width r e
      (colon ∷ fixed_decimal event_round_width p (colon ∷ event_id)) (colon ∷ round_end_suffix)
      (uint64_fits r a) (uint64_fits e c),
  text_lt-fixed_decimal event_round_width e r (colon ∷ round_end_suffix)
      (colon ∷ fixed_decimal event_round_width p (colon ∷ event_id)) (uint64_fits e c)
      (uint64_fits r a),
  text_lt-suffix (fixed_decimal event_round_width p (colon ∷ event_id))
      (fixed_decimal-StartsBelow event_round_width p (colon ∷ event_id) (omega arith)),
)

-- The cursor of a snapshot after round `e` lies above every event of the rounds up to `e`, and below
-- every event of a later round.
pub lp_round_end_order-separates :
    (r p e : ℕ) (event_id o s : Text)
    → lp_event_order (int (pos r)) event_id (int (pos p)) ≡ ok o
    → e ≤ max_algorand_uint
    → lp_round_end_order (int (pos e)) ≡ ok s
    → (text_lt o s ≡ leb r e) × (text_lt s o ≡ ltb e r)
lp_round_end_order-separates r p e event_id o s h c hs =
    let (eq, a, b) = lp_event_order-format r p event_id o h in
    let same : s ≡ round_end e = cc (hs, lp_round_end_order-round_end e c) in
    rw (eq, same) (text_lt-round_end r p e event_id a b c)
