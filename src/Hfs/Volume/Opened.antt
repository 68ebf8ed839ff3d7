-- ===== src/Hfs/Volume/Opened.antt =====
-- Which volumes open, and how the probe relates to that.
use darling_dmg.Common.{
  ◌≡◌, refl, ap, ◌∙◌, sym, arith, true, Bool-cases, inl, inr, ◌==◌, if◌then◌else◌, Bytes, length,
  Result, ok, err, io_error, ◌>>=◌,
}
use darling_dmg.Io.{Reader}
use darling_dmg.Hfs.Volume.{
  Volume, signature, is_plus_or_x, hfs_signature, header_size, process_embedded, check_signature,
  open_header, open_volume, is_plus_header, is_hfs_plus, dr_embed_sig_word,
}

bind-ok {ℓ κ} :
    {A : Type ℓ} {B : Type κ} (r : Result A) (f : A → Result B) (b : B)
    → (r >>= f) ≡ ok b
    → (a : A) × (r ≡ ok a) × (f a ≡ ok b)
bind-ok (ok a) f b h = (a, refl, h)
bind-ok (err e) f b h = absurd (ground arith)

check_signature-ok :
    (v w : Volume) → check_signature v ≡ ok w → is_plus_or_x (signature w.header) ≡ true
unfolding check_signature
check_signature-ok v w h = elim (Bool-cases (is_plus_or_x (signature v.header))) [
  | inl good ↦
      let same : v ≡ w = cc in ap (λ x. is_plus_or_x (signature x.header)) (sym same) ∙ good
  | inr bad ↦ absurd (ground arith)
]

check_signature-given :
    (v w : Volume) → check_signature v ≡ ok w → is_plus_or_x (signature v.header) ≡ true
unfolding check_signature
check_signature-given v w h = elim (Bool-cases (is_plus_or_x (signature v.header))) [
  | inl good ↦ good
  | inr bad ↦ absurd (ground arith)
]

process_embedded-ok :
    (r : Reader) (header : Bytes) (v : Volume)
    → process_embedded r header ≡ ok v
    → is_plus_or_x (dr_embed_sig_word header) ≡ true
unfolding process_embedded
process_embedded-ok r header v h = elim (Bool-cases (is_plus_or_x (dr_embed_sig_word header))) [
  | inl good ↦ good
  | inr bad ↦ absurd (ground arith)
]

open_header-ok :
    (r : Reader) (header : Bytes) (v : Volume)
    → open_header r header ≡ ok v
    → (is_plus_header header ≡ true) × (is_plus_or_x (signature v.header) ≡ true)
unfolding open_header is_plus_header
open_header-ok r header v h = elim (Bool-cases (signature header == hfs_signature)) [
  | inl wrapped ↦
      let opened : (process_embedded r header >>= check_signature) ≡ ok v =
        ap
          (λ b.
            if b
            then process_embedded r header >>= check_signature
            else check_signature (record { reader = r; header = header }))
          (sym wrapped)
        ∙ h in
      let (w, e, f) = bind-ok (process_embedded r header) check_signature v opened in
      (rw wrapped (process_embedded-ok r header w e), check_signature-ok w v f)
  | inr plain ↦
      let checked : check_signature (record { reader = r; header = header }) ≡ ok v =
        ap
          (λ b.
            if b
            then process_embedded r header >>= check_signature
            else check_signature (record { reader = r; header = header }))
          (sym plain)
        ∙ h in
      (
        rw plain (check_signature-given (record { reader = r; header = header }) v checked),
        check_signature-ok (record { reader = r; header = header }) v checked,
      )
]

header_of-ok :
    (r : Reader) (header : Bytes) (v : Volume)
    → (if length header == header_size then open_header r header else err io_error) ≡ ok v
    → ((length header == header_size) ≡ true) × (open_header r header ≡ ok v)
header_of-ok r header v h = elim (Bool-cases (length header == header_size)) [
  | inl whole ↦ (whole, ap (λ b. if b then open_header r header else err io_error) (sym whole) ∙ h)
  | inr short ↦ absurd (ground arith)
]

-- A volume that opens, as HFS+ or HFSX, embedded or not, is one that the probe accepts, and the header
-- that it keeps has one of the two signatures.
pub open_volume-is_hfs_plus :
    (r : Reader) (v : Volume)
    → open_volume r ≡ ok v
    → (is_hfs_plus r ≡ ok true) × (is_plus_or_x (signature v.header) ≡ true)
unfolding open_volume is_hfs_plus
open_volume-is_hfs_plus r v h =
    let (header, read, opened) =
      bind-ok (r.read header_size 1024)
        (λ b. if length b == header_size then open_header r b else err io_error) v h in
    let (whole, e) = header_of-ok r header v opened in
    let (probe, sig) = open_header-ok r header v e in (rw (read, whole) (ap (λ b. ok b) probe), sig)
