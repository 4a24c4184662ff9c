-- ===== src/Storage/Delete/Replies.antt =====
-- `DeleteHandler::Handle` over disk and metadata: what a reply promises.
use kama_asyn_log_system_clo.Base.{
  Option-cases, Sum-cases, Bytes, codes, ◌≡◌, sym, ap, ◌∙◌, ◌≢◌, inl, inr, true, none, some, ◌∷◌,
  ◌++◌, arith,
}
use kama_asyn_log_system_clo.Storage.FileName.{is_safe_file_name}
use kama_asyn_log_system_clo.Storage.Path.{FilePath, resolve}
use kama_asyn_log_system_clo.Storage.Path.Inside.{path_eq_refl}
use kama_asyn_log_system_clo.Storage.Disk.{file_at}
use kama_asyn_log_system_clo.Storage.Meta.{StorageInfo, MetadataStore, get_info}
use kama_asyn_log_system_clo.Storage.Meta.Store.{IsLawful}
use kama_asyn_log_system_clo.Storage.Meta.Transparent.{
  get_info-row, get_info_sound, get_info_absent,
}
use kama_asyn_log_system_clo.Storage.Http.{
  HttpResult, http_ok, Env, Service, delete_file_failed_metadata_rollback_failed,
}
use kama_asyn_log_system_clo.Storage.Backed.{IsBacked, looked_up, resolve_stored}
use kama_asyn_log_system_clo.Storage.Delete.{
  DeleteRequest, check_delete, delete_registered, delete_named, handle_delete,
}
use kama_asyn_log_system_clo.Storage.Delete.Registered.{
  delete_registered-row, delete_registered-file_at, delete_registered-IsCoherent,
  delete_registered-gone,
}

pub check_delete_safe :
    (r : DeleteRequest) (filename : Bytes)
    → check_delete r ≡ inr filename
    → is_safe_file_name filename ≡ true
unfolding check_delete
check_delete_safe r filename h = ground arith

module _ {S : Type 0} (ops : MetadataStore S) (laws : IsLawful ops) (env : Env) where
  open laws use {row}

  pub handle_delete_refused :
      (r : DeleteRequest) (s : Service S) (x : HttpResult)
      → check_delete r ≡ inl x
      → (handle_delete ops env r s ≡ (x, s)) × (x.status ≢ http_ok)
  unfolding handle_delete check_delete
  handle_delete_refused r s x h = ground arith

  pub handle_delete-none :
      (r : DeleteRequest) (s : Service S) (filename : Bytes)
      → check_delete r ≡ inr filename
      → (get_info ops (env.download_prefix ++ filename) s.manager).0 ≡ none
      → ((handle_delete ops env r s).0.status ≡ 404)
        × ((handle_delete ops env r s).1
            ≡ record s { manager = (get_info ops (env.download_prefix ++ filename) s.manager).1 })
  unfolding handle_delete delete_named
  handle_delete-none r s filename h k = ground arith

  pub handle_delete-some :
      (r : DeleteRequest) (s : Service S) (filename : Bytes) (i : StorageInfo)
      → check_delete r ≡ inr filename
      → (get_info ops (env.download_prefix ++ filename) s.manager).0 ≡ some i
      → handle_delete ops env r s
        ≡ delete_registered ops env i
            (env.download_prefix ++ filename)
            (record s { manager = (get_info ops (env.download_prefix ++ filename) s.manager).1 })
  unfolding handle_delete delete_named
  handle_delete-some r s filename i h k = ground arith

  module _ (dir : Bytes) (h : env.storage_dir ≡ dir ++ codes "/") where
    -- Over a lawful store and a storage directory that ends in a slash, where the invariant of
    -- files and rows holds: if a removal is answered with success, the request passed the tests
    -- with some name, the file of that name is gone, and the next lookup of its URL finds nothing.
    pub handle_delete-gone :
        (r : DeleteRequest) (s : Service S)
        → IsBacked ops laws env dir s
        → (handle_delete ops env r s).0.status ≡ http_ok
        → (filename : Bytes) × (check_delete r ≡ inr filename)
          × (file_at (handle_delete ops env r s).1.disk (filename ∷ resolve dir) ≡ none)
          × ((get_info ops
                (env.download_prefix ++ filename)
                (handle_delete ops env r s).1.manager).0
              ≡ none)
    handle_delete-gone r s b ok = elim (Sum-cases (check_delete r)) [
      | inl (x, e) ↦ absurd (ground (arith, handle_delete_refused r s x e))
      | inr (filename, e) ↦
          let url = env.download_prefix ++ filename in
          let s' : Service S = record s { manager = (get_info ops url s.manager).1 } in
          elim (Option-cases (get_info ops url s.manager).0) [
            | inl f ↦ absurd (ground (arith, handle_delete-none r s filename e f))
            | inr (i, f) ↦
                let safe = check_delete_safe r filename e in
                let (found, u) = get_info_sound ops laws url s.manager i b.coherent f in
                let (content, _, d) = b.backed filename safe i found in
                let run = handle_delete-some r s filename i e f in
                let ok' : (delete_registered ops env i url s').0.status ≡ http_ok =
                  sym (ap (λ x. x.0.status) run) ∙ ok in
                let at : resolve i.storage_path ≡ filename ∷ resolve dir =
                  ap resolve d.path ∙ resolve_stored env dir h filename safe in
                (
                  filename,
                  e,
                  ap (λ x. file_at x.1.disk (filename ∷ resolve dir)) run
                      ∙ ground (
                        arith,
                        at,
                        path_eq_refl (filename ∷ resolve dir),
                        delete_registered-file_at ops laws env i url s' (filename ∷ resolve dir),
                      ),
                  ap (λ x. (get_info ops url x.1.manager).0) run
                      ∙ get_info_absent ops laws url (delete_registered ops env i url s').1.manager
                          (delete_registered-IsCoherent ops laws env i url s'
                            (looked_up ops laws env dir s url b).coherent)
                          (delete_registered-gone ops laws env i url s' ok'),
                )
          ]
    ]

    -- Over a lawful store and a storage directory that ends in a slash, where the invariant of
    -- files and rows holds: a removal that is answered with anything but success, and not with a
    -- failed rollback, has changed no file and no row.
    pub handle_delete-kept :
        (r : DeleteRequest) (s : Service S)
        → IsBacked ops laws env dir s
        → (handle_delete ops env r s).0.status ≢ http_ok
        → (handle_delete ops env r s).0.reason ≢ delete_file_failed_metadata_rollback_failed
        → ((k : FilePath) → file_at (handle_delete ops env r s).1.disk k ≡ file_at s.disk k)
          × ((k : Bytes)
              → row (handle_delete ops env r s).1.manager.store k ≡ row s.manager.store k)
    handle_delete-kept r s b bad why = elim (Sum-cases (check_delete r)) [
      | inl (x, e) ↦
          let same = (handle_delete_refused r s x e).0 in
          (λ k. ap (λ y. file_at y.1.disk k) same, λ k. ap (λ y. row y.1.manager.store k) same)
      | inr (filename, e) ↦
          let url = env.download_prefix ++ filename in
          let s' : Service S = record s { manager = (get_info ops url s.manager).1 } in
          elim (Option-cases (get_info ops url s.manager).0) [
            | inl f ↦
                let same = (handle_delete-none r s filename e f).1 in
                (
                  λ k. ap (λ y. file_at y.disk k) same,
                  λ k. ap (λ y. row y.manager.store k) same ∙ get_info-row ops laws url s.manager k,
                )
            | inr (i, f) ↦
                let (found, u) = get_info_sound ops laws url s.manager i b.coherent f in
                let run = handle_delete-some r s filename i e f in
                (
                  λ k.
                      ap (λ y. file_at y.1.disk k) run
                      ∙ ground (
                        arith,
                        ap (λ y. y.0.status) run,
                        delete_registered-file_at ops laws env i url s' k,
                      ),
                  λ k.
                      ap (λ y. row y.1.manager.store k) run
                      ∙ elim (delete_registered-row ops laws env i url s' k
                          (looked_up ops laws env dir s url b).coherent u
                          (get_info-row ops laws url s.manager url ∙ found)) [
                            | inl m ↦ m ∙ get_info-row ops laws url s.manager k
                            | inr (_, _, inl o) ↦ absurd (bad (ap (λ y. y.0.status) run ∙ o))
                            | inr (_, _, inr o) ↦ absurd (why (ap (λ y. y.0.reason) run ∙ o))
                          ],
                )
          ]
    ]
