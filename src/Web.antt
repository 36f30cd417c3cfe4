-- ===== src/Web.antt =====
-- dashboard/internal/web/title.go, and noCacheStatic of dashboard/cmd/pispot-ui/main.go. The embedded
-- files and http.FileServer are parameters.
pub mod Titles
use pispot.Base.{Bool, ◌||◌, Option, none, some, [], if◌then◌else◌}
use pispot.Go.Bytes.{Bytes, lit, equal, is_empty, trim_prefix}
use pispot.Go.Map.{Map, insert}
use pispot.Go.Replace.{has_suffix, replace_all}
use pispot.Http.{HttpRequest, HttpResponse, text}

-- A handler that does not change anything: from the request, and the headers set before it is called.
abbrev pub Handler : Type 0
Handler = HttpRequest → Map Bytes → HttpResponse

abbrev pub placeholder : Bytes
placeholder = lit "{{DASHBOARD_TITLE}}"

abbrev pub revalidate : Bytes
revalidate = lit "no-cache, must-revalidate"

pub no_cache_static : Handler → Handler
no_cache_static h r headers = h r (insert (lit "Cache-Control") revalidate headers)

pub is_page : Bytes → Bool
is_page path = equal path (lit "/") || has_suffix path (lit ".html")

or_index : Bytes → Bytes
or_index name = if is_empty name then lit "index.html" else name

-- The name of a page's file.
pub file_name : Bytes → Bytes
file_name path = or_index (trim_prefix path (lit "/"))

pub titled : Bytes → Bytes → Map Bytes → HttpResponse
titled title contents headers = record {
  status = 200;
  headers =
      insert (lit "Cache-Control") revalidate
        (insert (lit "Content-Type") (lit "text/html; charset=utf-8") headers);
  body = text (replace_all placeholder title contents);
}

on_file : Handler → Bytes → Option Bytes → Handler
on_file h title none r headers = h r headers
on_file h title (some contents) r headers = titled title contents headers

-- TitleHandler, over fs.ReadFile on the embedded files.
pub title_handler : (Bytes → Option Bytes) → Handler → Bytes → Handler
title_handler files h title r headers =
    if is_page r.path then on_file h title (files (file_name r.path)) r headers else h r headers
