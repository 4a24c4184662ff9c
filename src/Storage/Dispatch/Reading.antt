-- ===== src/Storage/Dispatch/Reading.antt =====
-- Which requests change nothing: src/server/Service.hpp.
use kama_asyn_log_system_clo.Base.{
  Bytes, ℕ, ◌≡◌, refl, ap, Bool, true, false, Option, none, some, arith,
}
use kama_asyn_log_system_clo.Storage.Url.{url_decode}
use kama_asyn_log_system_clo.Storage.Path.{FilePath}
use kama_asyn_log_system_clo.Storage.Meta.{MetadataStore}
use kama_asyn_log_system_clo.Storage.Meta.Store.{IsLawful}
use kama_asyn_log_system_clo.Storage.Disk.{Disk, file_at}
use kama_asyn_log_system_clo.Storage.Http.{Env, Times, Service}
use kama_asyn_log_system_clo.Storage.Session.Files.{load_session-file_at}
use kama_asyn_log_system_clo.Storage.Download.Sent.{handle_download-kept}
use kama_asyn_log_system_clo.Storage.Multipart.{handle_status}
use kama_asyn_log_system_clo.Storage.Listing.{QueryStore}
use kama_asyn_log_system_clo.Storage.Listing.Replies.{handle_list-reply, handle_list_row}
use kama_asyn_log_system_clo.Storage.Dispatch.{
  Request, download_of, Route, to_download, to_init, to_chunk, to_status, to_complete, to_abort,
  to_delete, to_upload, to_list, to_nothing, route, on_disk, handle, dispatch_decoded, dispatch,
}

unfoldable pub reads : Route → Bool
reads to_download = true
reads to_status = true
reads to_list = true
reads to_nothing = true
reads _ = false

-- A path that cannot be decoded, or one that goes to a handler that reads.
unfoldable pub reads_only : Option Bytes → Bool
reads_only none = true
reads_only (some path) = reads (route path)

handle_status-file_at :
    (env : Env) (id : Bytes) (d : Disk) (k : FilePath)
    → file_at (handle_status env id d).1 k ≡ file_at d k
unfolding handle_status
handle_status-file_at env id d k = ground (arith, load_session-file_at env d id k)

module _ {S : Type 0} (ops : MetadataStore S) (laws : IsLawful ops) (list_store : QueryStore S)
    (env : Env) (t : Times) (ctime : ℕ → Bytes)
    (keeps : (keyword sort : Bytes) (page page_size : ℕ) (s : S) (k : Bytes)
      → laws.row (list_store keyword sort page page_size s).1 k ≡ laws.row s k) where
  open laws use {row}

  abbrev pub IsUnchanged : Service S → Service S → Type 0
  IsUnchanged s s' =
      ((k : FilePath) → file_at s'.disk k ≡ file_at s.disk k)
      × ((k : Bytes) → row s'.manager.store k ≡ row s.manager.store k)

  handle-reads :
      (to : Route) (r : Request) (s : Service S)
      → reads to ≡ true
      → IsUnchanged s (handle ops list_store env t ctime to r s).1
  unfolding handle on_disk reads
  handle-reads to_download r s h = handle_download-kept ops laws env (download_of r) s
  handle-reads to_status r s h = (λ k. handle_status-file_at env _ s.disk k, λ k. refl)
  handle-reads to_list r s h =
      let (a, b, same, d) = handle_list-reply env ctime list_store r.query s in
      (
        λ k. ap (λ d. file_at d k) same,
        λ k.
            handle_list_row env ctime list_store (λ s. row s k) r.query s
              (λ keyword sort page page_size s. keeps keyword sort page page_size s k),
      )
  handle-reads to_nothing r s h = (λ k. refl, λ k. refl)
  handle-reads to_init r s h = cc
  handle-reads to_chunk r s h = cc
  handle-reads to_complete r s h = cc
  handle-reads to_abort r s h = cc
  handle-reads to_delete r s h = cc
  handle-reads to_upload r s h = cc

  dispatch_decoded_reads :
      (path : Option Bytes) (r : Request) (s : Service S)
      → reads_only path ≡ true
      → IsUnchanged s (dispatch_decoded ops list_store env t ctime path r s).1
  unfolding dispatch_decoded reads_only
  dispatch_decoded_reads none r s h = (λ k. refl, λ k. refl)
  dispatch_decoded_reads (some path) r s h = handle-reads (route path) r s h

  -- Over a lawful store whose lists keep the rows: a request whose path cannot be decoded, or does
  -- not lead to an upload, an upload in chunks other than its status, or a removal, changes no file
  -- and no row.
  pub dispatch_reads :
      (r : Request) (s : Service S)
      → reads_only (url_decode r.path) ≡ true
      → IsUnchanged s (dispatch ops list_store env t ctime r s).1
  unfolding dispatch
  dispatch_reads r s h = dispatch_decoded_reads (url_decode r.path) r s h
