-- ===== src/Fs/Content.antt =====
-- The content of a file as bytes, and what bmap and a write to one of its blocks do to it.
use model_lib.Base.{
  ℕ, ◌-◌, ◌*◌, ◌/◌, ◌%◌, ◌<◌, ◌≡◌, ◌≢◌, arith, ◌==◌, ltb, if◌then◌else◌, update, update_self,
  update_ne, ◌∙◌, ap, sym,
}
use native.Mathlib.Decide.{ℕ_discrete}
use model_lib.Fs.{Content, Fs, Inode, bsize, ndirect, maxfile, word}
use model_lib.Fs.Blocks.{lookup, Good}
use model_lib.Fs.Direct.{Mapped}

-- What block number `b` of a file holds; a block that is not there holds zeros.
abbrev pub content_at : Fs → ℕ → ℕ → ℕ
content_at fs b i = if b == 0 then 0 else fs.bytes b i

-- The byte at an offset of a file.
abbrev pub file_byte : Inode → Fs → ℕ → ℕ
file_byte ip fs i = content_at fs (lookup ip fs (i / bsize)) (i % bsize)

-- bmap does not show in the content.
pub file_byte-Mapped :
    (target r : ℕ) (ip ip1 : Inode) (fs fs1 : Fs) (i : ℕ)
    → Mapped target ip fs r ip1 fs1
    → i < maxfile * bsize
    → file_byte ip1 fs1 i ≡ file_byte ip fs i
file_byte-Mapped target r ip ip1 fs fs1 i m h = elim (ℕ_discrete bn target) [
  | yes e ↦ elim (ℕ_discrete (lookup ip fs bn) 0) [
    | yes z ↦ elim (ℕ_discrete r 0) [
      | yes nr ↦ ap (λ b. content_at fs1 b o) (here e ∙ nr) ∙ sym (ap (λ b. content_at fs b o) z)
      | no nr ↦
          ap (λ b. content_at fs1 b o) (here e)
          ∙ ground
              (arith, nr, ap (λ (c : Content). c o) (m.cleared (sym (ap (lookup ip fs) e) ∙ z) nr))
          ∙ sym (ap (λ b. content_at fs b o) z)
    ]
    | no nz ↦
        ap (λ b. content_at fs1 b o)
          (here e ∙ m.kept (λ z. nz (ap (lookup ip fs) e ∙ z)) ∙ sym (ap (lookup ip fs) e))
        ∙ same nz
  ]
  | no ne ↦
      ap (λ b. content_at fs1 b o) (m.there bn below ne)
      ∙ elim (ℕ_discrete (lookup ip fs bn) 0) [ yes z ↦ ground (arith, z) | no nz ↦ same nz ]
]
  where
    bn : ℕ
    bn = i / bsize

    o : ℕ
    o = i % bsize

    below : bn < maxfile
    below = omega (arith, h)

    here : bn ≡ target → lookup ip1 fs1 bn ≡ r
    here e = ap (lookup ip1 fs1) e ∙ m.here

    same :
        lookup ip fs bn ≢ 0 → content_at fs1 (lookup ip fs bn) o ≡ content_at fs (lookup ip fs bn) o
    same nz = ap (λ (c : Content). if lookup ip fs bn == 0 then 0 else c o) (m.contents bn below nz)

-- A block of the file gets new contents.
module _ (ip : Inode) (fs : Fs) (bn : ℕ) (c : Content) (ok : Good ip fs) (below : bn < maxfile)
    (there : lookup ip fs bn ≢ 0) where
  abbrev pub rewritten : Fs
  rewritten = record fs { bytes = update fs.bytes (lookup ip fs bn) c }

  pub lookup-rewritten : (j : ℕ) → lookup ip rewritten j ≡ lookup ip fs j
  lookup-rewritten j =
      ap
        (λ (d : Content).
          if ltb j ndirect
          then ip.addrs j
          else if ip.addrs ndirect == 0
          then 0
          else word d (j - ndirect))
        (update_ne fs.bytes (lookup ip fs bn) (ip.addrs ndirect) c (ok.not_indirect bn below there))

  pub Good-rewritten : Good ip rewritten
  Good-rewritten = record {
    boot = ok.boot;
    used = λ j h. ap fs.in_use (lookup-rewritten j) ∙ ok.used j h;
    used_indirect = ok.used_indirect;
    differ = λ i j hi hj nz same.
        ok.differ i j hi hj (λ z. nz (lookup-rewritten i ∙ z))
          (sym (lookup-rewritten i) ∙ same ∙ lookup-rewritten j);
    not_indirect = λ j h nz e.
        ok.not_indirect j h (λ z. nz (lookup-rewritten j ∙ z)) (sym (lookup-rewritten j) ∙ e);
  }

  pub file_byte-rewritten :
      (i : ℕ)
      → i < maxfile * bsize
      → file_byte ip rewritten i ≡ (if i / bsize == bn then c (i % bsize) else file_byte ip fs i)
  file_byte-rewritten i h = elim (ℕ_discrete (i / bsize) bn) [
    | yes e ↦
        ap (λ b. content_at rewritten b (i % bsize))
          (lookup-rewritten (i / bsize) ∙ ap (lookup ip fs) e)
        ∙ ground (
          arith,
          there,
          e,
          ap (λ (d : Content). d (i % bsize)) (update_self fs.bytes (lookup ip fs bn) c),
        )
    | no ne ↦
        ap (λ b. content_at rewritten b (i % bsize)) (lookup-rewritten (i / bsize))
        ∙ elim (ℕ_discrete (lookup ip fs (i / bsize)) 0) [
          | yes z ↦ ground (arith, z, ne)
          | no nz ↦
              ap (λ (d : Content). if lookup ip fs (i / bsize) == 0 then 0 else d (i % bsize))
                (update_ne fs.bytes (lookup ip fs bn) (lookup ip fs (i / bsize)) c
                  (λ same. ne (ok.differ (i / bsize) bn (omega (arith, h)) below nz (sym same))))
              ∙ ground (arith, ne)
        ]
  ]
