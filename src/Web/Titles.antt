-- ===== src/Web/Titles.antt =====
-- What the static part of the dashboard answers.
use pispot.Base.{
  ◌≡◌, refl, ◌⊎◌, inl, inr, true, false, Option, none, some, [], ◌∷◌, Bool-cases, Option-cases,
}
use pispot.Go.Bytes.{Bytes, lit, equal}
use pispot.Go.Map.{lookup, insert}
use pispot.Go.Replace.{Replaced, replace_all}
use pispot.Go.Replace.Occurrences.{replace_all-Replaced}
use pispot.Http.{HttpRequest, HttpResponse, text}
use pispot.Web.{
  Handler, placeholder, revalidate, no_cache_static, is_page, file_name, titled, on_file,
  title_handler,
}

-- A page of the dashboard: its file with every title put in, to be asked for again each time.
pub record IsTitled (title contents : Bytes) (answer : HttpResponse) : Type 0 where
  pub out : Bytes
  pub replaced : Replaced placeholder title contents out
  pub body : answer.body ≡ text out
  pub status : answer.status ≡ 200
  pub html : lookup (lit "Content-Type") answer.headers ≡ some (lit "text/html; charset=utf-8")
  pub revalidated : lookup (lit "Cache-Control") answer.headers ≡ some revalidate

titled-IsTitled : (title contents : Bytes) → IsTitled title contents (titled title contents [])
unfolding titled lookup insert equal
titled-IsTitled title contents = record {
  out = replace_all placeholder title contents;
  replaced = replace_all-Replaced _ _ title contents;
  body = refl;
  status = refl;
  html = refl;
  revalidated = refl;
}

-- On every path: / and each path that ends in .html and names a file are answered with that file, where
-- every title placeholder is replaced by the title, from the left and without touching anything else, as
-- HTML that is to be asked for again; anything else is left to the file server, to which it is said that
-- its answer is to be asked for again, too.
pub title_handler-IsTitled :
    (files : Bytes → Option Bytes) (file_server : Handler) (title : Bytes) (r : HttpRequest)
    → let answer = title_handler files (no_cache_static file_server) title r [] in
      ((contents : Bytes) × (is_page r.path ≡ true)
        × (files (file_name r.path) ≡ some contents)
        × IsTitled title contents answer)
      ⊎ (((is_page r.path ≡ false) ⊎ (files (file_name r.path) ≡ none))
          × (answer ≡ file_server r ((lit "Cache-Control", revalidate) ∷ [])))
unfolding title_handler no_cache_static insert on_file
title_handler-IsTitled files file_server title r = elim (Bool-cases (is_page r.path)) [
  | inr other ↦ inr (inl other, rw other refl)
  | inl page ↦ elim (Option-cases (files (file_name r.path))) [
    | inl missing ↦ inr (inr missing, rw (page, missing) refl)
    | inr (contents, there) ↦
        inl (contents, page, there, rw (page, there) (titled-IsTitled title contents))
  ]
]
