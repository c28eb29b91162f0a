-- ===== src/CacheApi/Tests.antt =====
-- An instance of what is proved of the cache endpoints.
use isartor.Common.{ℕ, codes, Option, some, List, [], ◌≡◌, inl, refl, arith}
use isartor.Json.Tree.{Value, get, lookup, as_str, to_string}
use isartor.Sample.{parse, from_slice, print, outside, fresh, native_doc, no_header}
use isartor.ExactCache.Bounded.{Entries, bounded-LruCacheLaws}
use isartor.CacheScope.{
  extract_session_cache_scope, extract_session_identifier_from_headers,
  extract_session_identifier_from_body, derive_session_cache_scope, normalize_session_identifier,
}
use isartor.AppState.{AppState, Outside}
use isartor.CacheApi.{
  CacheStoreRequest, ApiRequest, hit_response, cached_json, stored, cache_lookup_handler,
  cache_store_handler,
}
use isartor.CacheApi.RoundTrip.{cache_lookup_handler-cache_store_handler}

program : Unit {0}
unfolding from_slice print parse get lookup as_str to_string extract_session_cache_scope
    extract_session_identifier_from_headers extract_session_identifier_from_body
    derive_session_cache_scope normalize_session_identifier
program = tt

abbrev gateway : Outside Value Entries ℕ ℕ
gateway = outside (codes "SIMPLE") (inl (codes "yes"))

abbrev request : CacheStoreRequest
request = record { prompt = codes "hi"; response = codes "hello"; model = [] }

abbrev reads : List ℕ → Option CacheStoreRequest
reads bytes = some request

abbrev sent : ApiRequest
sent = record { header = no_header; body = some (print native_doc) }

cache_lookup_handler-cache_store_handler_example :
    (after : AppState Entries ℕ ℕ) × (cache_store_handler gateway reads sent fresh
      ≡ some (stored gateway reads, after))
    × ((cache_lookup_handler gateway sent after).0
        ≡ hit_response gateway (codes "l1a") (cached_json gateway reads request))
unfolding program
cache_lookup_handler-cache_store_handler_example =
    cache_lookup_handler-cache_store_handler gateway reads (bounded-LruCacheLaws 9) sent sent fresh
      (print native_doc) (print native_doc) request refl refl refl refl refl refl (omega arith)
      (omega arith)
