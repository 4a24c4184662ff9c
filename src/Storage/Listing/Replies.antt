-- ===== src/Storage/Listing/Replies.antt =====
-- What the list page replies: `Handle` of src/server/ListHandler.hpp.
use kama_asyn_log_system_clo.Base.{Bytes, ℕ, ◌≡◌, refl, ap, Option, none, some}
use kama_asyn_log_system_clo.Storage.Http.{http_ok, http_badrequest, http_internal, Env, Service}
use kama_asyn_log_system_clo.Storage.Query.{ListQuery, parse_list_query}
use kama_asyn_log_system_clo.Storage.Mysql.{ListPage}
use kama_asyn_log_system_clo.Storage.Listing.{
  QueryStore, list_body, send_list, list_parsed, handle_list,
}

-- The status that each outcome has.
abbrev pub outcome : {S : Type 0} → QueryStore S → Option ListQuery → S → ℕ
outcome store none s = http_badrequest
outcome store (some q) s = elim ((store q.keyword q.sort q.page q.page_size s).0) [
  | none ↦ http_internal
  | some shown ↦ http_ok
]

module _ {S : Type 0} (env : Env) (ctime : ℕ → Bytes) (store : QueryStore S) where
  send_list_status :
      (q : ListQuery) (shown : Option ListPage) (service : Service S)
      → ((send_list env ctime store q shown service).result.status
          ≡ (elim shown [ none ↦ http_internal | some p ↦ http_ok ]))
        × ((send_list env ctime store q shown service).result.sent
            ≡ some (send_list env ctime store q shown service).result.status)
  unfolding send_list
  send_list_status q none service = (refl, refl)
  send_list_status q (some shown) service = (refl, refl)

  list_parsed_reply :
      (q : Option ListQuery) (service : Service S)
      → ((list_parsed env ctime store q service).0.result.status
          ≡ outcome store q service.manager.store)
        × ((list_parsed env ctime store q service).0.result.sent
            ≡ some (list_parsed env ctime store q service).0.result.status)
        × ((list_parsed env ctime store q service).1.disk ≡ service.disk)
        × ((list_parsed env ctime store q service).1.manager.table ≡ service.manager.table)
  unfolding list_parsed
  list_parsed_reply none service = (refl, refl, refl, refl)
  list_parsed_reply (some q) service =
      let (a, b) =
        send_list_status q (store q.keyword q.sort q.page q.page_size service.manager.store).0
          service in
      (a, b, refl, refl)

  -- One reply is sent, with the status that is returned: 400 for a query that is not accepted, 500
  -- where the store gives no answer, and 200 else. No file changes, and no row in memory.
  pub handle_list-reply :
      (raw_query : Option Bytes) (service : Service S)
      → ((handle_list env ctime store raw_query service).0.result.status
          ≡ outcome store (parse_list_query raw_query) service.manager.store)
        × ((handle_list env ctime store raw_query service).0.result.sent
            ≡ some (handle_list env ctime store raw_query service).0.result.status)
        × ((handle_list env ctime store raw_query service).1.disk ≡ service.disk)
        × ((handle_list env ctime store raw_query service).1.manager.table ≡ service.manager.table)
  unfolding handle_list
  handle_list-reply raw_query service = list_parsed_reply (parse_list_query raw_query) service

  pub list_parsed-some :
      (q : ListQuery) (shown : ListPage) (service : Service S)
      → (store q.keyword q.sort q.page q.page_size service.manager.store).0 ≡ some shown
      → ((list_parsed env ctime store (some q) service).0.result.status ≡ http_ok)
        × ((list_parsed env ctime store (some q) service).0.body
            ≡ list_body env ctime store q shown service)
  unfolding list_parsed send_list
  list_parsed-some q shown service h =
      let answered = ap (λ p. send_list env ctime store q p service) h in
      (ap (λ r. r.result.status) answered, ap (λ r. r.body) answered)

  list_parsed_row :
      {R : Type 0} (row : S → R) (q : Option ListQuery) (service : Service S)
      → ((keyword sort : Bytes) (page page_size : ℕ) (s : S)
          → row (store keyword sort page page_size s).1 ≡ row s)
      → row (list_parsed env ctime store q service).1.manager.store ≡ row service.manager.store
  unfolding list_parsed
  list_parsed_row row none service keeps = refl
  list_parsed_row row (some q) service keeps = keeps q.keyword q.sort q.page q.page_size _

  -- What a list of the store keeps, the list page keeps.
  pub handle_list_row :
      {R : Type 0} (row : S → R) (raw_query : Option Bytes) (service : Service S)
      → ((keyword sort : Bytes) (page page_size : ℕ) (s : S)
          → row (store keyword sort page page_size s).1 ≡ row s)
      → row (handle_list env ctime store raw_query service).1.manager.store
        ≡ row service.manager.store
  unfolding handle_list
  handle_list_row row raw_query service keeps =
      list_parsed_row row (parse_list_query raw_query) service keeps
