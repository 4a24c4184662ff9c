-- ===== src/Storage/Dispatch/Logged.antt =====
-- Every request is answered once, and the access log says how: src/server/Service.hpp.
use kama_asyn_log_system_clo.Base.{
  Bytes, codes, bytes_eq_iff, ℕ, ◌≡◌, refl, ap, ◌⊎◌, inl, inr, Option, none, some, arith,
}
use kama_asyn_log_system_clo.Storage.Url.{url_decode}
use kama_asyn_log_system_clo.Storage.Upload.{
  UploadRequest, check_upload, save_upload, store_upload, handle_upload,
}
use kama_asyn_log_system_clo.Storage.Listing.{QueryStore}
use kama_asyn_log_system_clo.Storage.Listing.Replies.{handle_list-reply}
use kama_asyn_log_system_clo.Storage.Dispatch.{
  Request, upload_of, download_of, delete_of, init_of, Route, to_download, to_init, to_chunk,
  to_status, to_complete, to_abort, to_delete, to_upload, to_list, to_nothing, route, on_disk,
  log_access, handle, dispatch_decoded, dispatch,
}
use kama_asyn_log_system_clo.Storage.Meta.{MetadataStore}
use kama_asyn_log_system_clo.Storage.Disk.{Disk}
use kama_asyn_log_system_clo.Storage.Http.{HttpResult, Env, Times, Service}
use kama_asyn_log_system_clo.Storage.Delete.{
  DeleteRequest, check_delete, delete_registered, delete_named, handle_delete,
}
use kama_asyn_log_system_clo.Storage.Download.{DownloadRequest, send_file, handle_download}
use kama_asyn_log_system_clo.Storage.Multipart.{
  InitRequest, open_session, init_session, handle_init, save_chunk, handle_chunk, handle_status,
  handle_abort,
}
use kama_asyn_log_system_clo.Storage.Complete.{
  register_merged, merge_session, complete_session, handle_complete,
}

-- One reply was sent, with the status that is returned.
abbrev pub IsReplied : HttpResult → Type 0
IsReplied x = x.sent ≡ some x.status

module _ (env : Env) (t : Times) where
  handle_status-IsReplied : (id : Bytes) (d : Disk) → IsReplied (handle_status env id d).0
  unfolding handle_status
  handle_status-IsReplied id d = ground arith

  handle_abort-IsReplied : (id : Option Bytes) (d : Disk) → IsReplied (handle_abort env id d).0
  unfolding handle_abort
  handle_abort-IsReplied none d = refl
  handle_abort-IsReplied (some id) d = refl

  handle_chunk-IsReplied :
      (id : Option Bytes) (index : Option ℕ) (body : Option Bytes) (d : Disk)
      → IsReplied (handle_chunk env t id index body d).0
  unfolding handle_chunk save_chunk
  handle_chunk-IsReplied none index body d = refl
  handle_chunk-IsReplied (some id) none body d = refl
  handle_chunk-IsReplied (some id) (some index) body d = ground arith

module _ {S : Type 0} (ops : MetadataStore S) (env : Env) (t : Times) where
  handle_download-IsReplied :
      (r : DownloadRequest) (s : Service S) → IsReplied (handle_download ops r s).0.0
  unfolding handle_download send_file
  handle_download-IsReplied r s = ground arith

  handle_delete-IsReplied :
      (r : DeleteRequest) (s : Service S) → IsReplied (handle_delete ops env r s).0
  unfolding handle_delete check_delete delete_named delete_registered
  handle_delete-IsReplied r s = ground arith

  handle_init-IsReplied :
      (r : InitRequest) (s : Service S) → IsReplied (handle_init ops env t r s).0
  unfolding handle_init init_session open_session
  handle_init-IsReplied r s = ground arith

  handle_complete-IsReplied :
      (id : Option Bytes) (s : Service S) → IsReplied (handle_complete ops env t id s).0
  unfolding handle_complete complete_session merge_session register_merged
  handle_complete-IsReplied none s = refl
  handle_complete-IsReplied (some id) s = ground arith

  handle_upload-IsReplied :
      (r : UploadRequest) (s : Service S)
      → IsReplied (handle_upload ops env t r s).0
        ⊎ (((handle_upload ops env t r s).0.sent ≡ none) × (r.input_buffer ≡ none))
  unfolding handle_upload check_upload save_upload store_upload
  handle_upload-IsReplied r s = ground arith

route_upload : (path : Bytes) → route path ≡ to_upload → path ≡ codes "/upload"
unfolding route
route_upload path h = ground (arith, bytes_eq_iff path (codes "/upload"))

-- A reply, or none at all, which only an upload with no input buffer gets.
abbrev pub IsAnswered : Option Bytes → Request → HttpResult → Type 0
IsAnswered path r x =
    IsReplied x ⊎ ((x.sent ≡ none) × (path ≡ some (codes "/upload")) × (r.input_buffer ≡ none))

module _ {S : Type 0} (ops : MetadataStore S) (list_store : QueryStore S) (env : Env) (t : Times)
    (ctime : ℕ → Bytes) where
  handle-IsAnswered :
      (path : Bytes) (to : Route) (r : Request) (s : Service S)
      → route path ≡ to
      → IsAnswered (some path) r (handle ops list_store env t ctime to r s).0
  unfolding handle on_disk upload_of delete_of
  handle-IsAnswered path to_download r s e =
      inl (handle_download-IsReplied ops env t (download_of r) s)
  handle-IsAnswered path to_init r s e = inl (handle_init-IsReplied ops env t (init_of r) s)
  handle-IsAnswered path to_chunk r s e = inl (handle_chunk-IsReplied env t _ _ _ s.disk)
  handle-IsAnswered path to_status r s e = inl (handle_status-IsReplied env t _ s.disk)
  handle-IsAnswered path to_complete r s e = inl (handle_complete-IsReplied ops env t _ s)
  handle-IsAnswered path to_abort r s e = inl (handle_abort-IsReplied env t _ s.disk)
  handle-IsAnswered path to_delete r s e = inl (handle_delete-IsReplied ops env t (delete_of r) s)
  handle-IsAnswered path to_upload r s e =
      elim (handle_upload-IsReplied ops env t (upload_of r) s) [
        | inl replied ↦ inl replied
        | inr (silent, none_there) ↦ inr (silent, ap some (route_upload path e), none_there)
      ]
  handle-IsAnswered path to_list r s e =
      let (a, b, c, d) = handle_list-reply env ctime list_store r.query s in inl b
  handle-IsAnswered path to_nothing r s e = inl refl

  dispatch_decoded-IsAnswered :
      (path : Option Bytes) (r : Request) (s : Service S)
      → IsAnswered path r (dispatch_decoded ops list_store env t ctime path r s).0.0
        × ((dispatch_decoded ops list_store env t ctime path r s).0.1.status
            ≡ (dispatch_decoded ops list_store env t ctime path r s).0.0.status)
  unfolding dispatch_decoded log_access
  dispatch_decoded-IsAnswered none r s = (inl refl, refl)
  dispatch_decoded-IsAnswered (some path) r s = (handle-IsAnswered path (route path) r s refl, refl)

  -- Every request, whatever its path, is answered by one reply with the status that is returned,
  -- or by none where it is an upload with no input buffer; and the access log shows that status.
  pub dispatch-IsAnswered :
      (r : Request) (s : Service S)
      → IsAnswered (url_decode r.path) r (dispatch ops list_store env t ctime r s).0.0
        × ((dispatch ops list_store env t ctime r s).0.1.status
            ≡ (dispatch ops list_store env t ctime r s).0.0.status)
  unfolding dispatch
  dispatch-IsAnswered r s = dispatch_decoded-IsAnswered (url_decode r.path) r s
