-- ===== src/Mcp/Gateway/Headers.antt =====
-- The name of a file, from the header of a provider to the client that reads it.
use Prim.Native.Char.{code}
use text.Mathlib.TextLemmas.{nil-append, cons-append, append_assoc}
use beckn_data_commons.Base.{
  String, true, false, not, ◌==◌, ◌≡◌, refl, inl, inr, ◌∙◌, ap, some, eqb, Bool-cases, or_else,
}
use beckn_data_commons.Js.Text.{◌<>◌, all_chars}
use beckn_data_commons.Json.Texts.{without_prefix, without_prefix-append}
use beckn_data_commons.Bpp.Download.{ResolvedFile}
use beckn_data_commons.Bpp.App.{disposition}
use beckn_data_commons.Http.{Response, is_ok}
use beckn_data_commons.Mcp.Gateway.{until_quote, filename_here, filename_of, download_result}

-- `"` is character 34
abbrev pub HasNoQuote : String → Type 0
HasNoQuote s = all_chars (λ c. not (eqb c 34)) s ≡ true

until_quote-quoted : (s : String) → HasNoQuote s → until_quote (s <> "\"") ≡ s
unfolding until_quote all_chars
until_quote-quoted String.[] h = refl
until_quote-quoted (String.◌∷◌ c s) h = elim (Bool-cases (eqb (code c) 34)) [
  | inl quote ↦ absurd (cc (rw quote at h))
  | inr other ↦
      rw cons-append
        (rw (other, until_quote) (ap (String.◌∷◌ c) (until_quote-quoted s (rw other at h))))
]

-- The search passes over characters other than `f`.
filename_of-skip :
    (p t : String)
    → all_chars (λ c. not (eqb b'f' c)) p ≡ true
    → filename_of (p <> t) ≡ filename_of t
unfolding filename_of filename_here without_prefix all_chars
filename_of-skip String.[] t h = rw nil-append refl
filename_of-skip (String.◌∷◌ c p) t h = elim (Bool-cases (eqb b'f' (code c))) [
  | inl letter ↦ absurd (cc (rw letter at h))
  | inr other ↦ rw cons-append (rw (other, without_prefix) (filename_of-skip p t (rw other at h)))
]

filename_of-here : (s f : String) → filename_here s ≡ some f → filename_of s ≡ some f
unfolding filename_of
filename_of-here String.[] f h = h
filename_of-here (String.◌∷◌ c s) f h = rw h refl

filename_here-quoted :
    (f : String)
    → HasNoQuote f
    → (f == "") ≡ false
    → filename_here ("filename=" <> "\"" <> f <> "\"") ≡ some f
unfolding filename_here
filename_here-quoted f h given =
    rw (without_prefix-append "filename=" ("\"" <> f <> "\""), filename_here)
      (rw (cons-append, nil-append) (rw (until_quote-quoted f h, filename_here) (rw given refl)))

header_parts :
    (t : String) → "attachment; filename=\"" <> t ≡ "attachment; " <> "filename=" <> "\"" <> t
header_parts t =
    let same : ("attachment; " <> "filename=") <> "\"" ≡ "attachment; filename=\"" = refl in
    rw (← same) (append_assoc _ "\"" t ∙ append_assoc "attachment; " "filename=" ("\"" <> t))

-- The file name that a provider writes in its header is the one that the client reads in it.
pub filename_of-disposition :
    (file : ResolvedFile)
    → HasNoQuote file.filename
    → (file.filename == "") ≡ false
    → filename_of (disposition file) ≡ some file.filename
filename_of-disposition file h given =
    ap filename_of (header_parts (file.filename <> "\""))
    ∙ filename_of-skip "attachment; " _ (unfold all_chars in refl)
    ∙ filename_of-here _ _ (filename_here-quoted file.filename h given)

-- The answer of a provider that sends a file, as the client reads it.
pub download_result-sent :
    (file : ResolvedFile) (res : Response)
    → is_ok res ≡ true
    → res.content_disposition ≡ some (disposition file)
    → HasNoQuote file.filename
    → (file.filename == "") ≡ false
    → (download_result res).ok ≡ true
      × ((download_result res).filename ≡ some file.filename)
      × ((download_result res).body ≡ some res.text)
unfolding download_result
download_result-sent file res good headed h given =
    rw (good, download_result)
      (
        refl,
        ap (λ d. filename_of (or_else d "")) headed ∙ filename_of-disposition file h given,
        refl,
      )
