-- ===== src/Storage/Delete/Backed.antt =====
-- `DeleteHandler::Handle` keeps the invariant of the service.
use kama_asyn_log_system_clo.Base.{
  ◌==◌, ==_iff, Bool-cases, Option-cases, Sum-cases, Bytes, codes, bytes_eq, bytes_eq_iff,
  bytes_apart, append_cancel, ◌≡◌, sym, ap, subst, ◌∙◌, inl, inr, true, some, ◌∷◌, ◌++◌, arith,
}
use kama_asyn_log_system_clo.Storage.FileName.{is_safe_file_name}
use kama_asyn_log_system_clo.Storage.Path.{resolve}
use kama_asyn_log_system_clo.Storage.Disk.Frame.{path_eq_ne}
use kama_asyn_log_system_clo.Storage.Meta.{StorageInfo, MetadataStore, get_info}
use kama_asyn_log_system_clo.Storage.Meta.Store.{IsLawful}
use kama_asyn_log_system_clo.Storage.Meta.Transparent.{get_info-row, get_info_sound}
use kama_asyn_log_system_clo.Storage.Http.{http_ok, Env, Service}
use kama_asyn_log_system_clo.Storage.Backed.{
  Describes, IsBacked, IsBackedAt, IsBackedAt-kept, IsBackedAt-absent, looked_up, resolve_stored,
}
use kama_asyn_log_system_clo.Storage.Delete.{
  DeleteRequest, check_delete, delete_registered, handle_delete,
}
use kama_asyn_log_system_clo.Storage.Delete.Registered.{
  delete_registered-row, delete_registered-file_at, delete_registered-IsCoherent,
  delete_registered-gone,
}
use kama_asyn_log_system_clo.Storage.Delete.Replies.{
  check_delete_safe, handle_delete_refused, handle_delete-none, handle_delete-some,
}

module _ {S : Type 0} (ops : MetadataStore S) (laws : IsLawful ops) (env : Env) where
  open laws use {row}

  module _ (dir : Bytes) (h : env.storage_dir ≡ dir ++ codes "/") where
    delete_registered-IsBacked :
        (filename content : Bytes) (i : StorageInfo) (s : Service S)
        → is_safe_file_name filename ≡ true
        → Describes env filename content i
        → row s.manager.store (env.download_prefix ++ filename) ≡ some i
        → IsBacked ops laws env dir s
        → IsBacked ops laws env dir
            (delete_registered ops env i (env.download_prefix ++ filename) s).1
    delete_registered-IsBacked filename content i s safe d r b =
        let url = env.download_prefix ++ filename in
        let s' = (delete_registered ops env i url s).1 in
        let at : resolve i.storage_path ≡ filename ∷ resolve dir =
          ap resolve d.path ∙ resolve_stored env dir h filename safe in
        record {
          coherent = delete_registered-IsCoherent ops laws env i url s b.coherent;
          backed = λ name ok. elim (Bool-cases (bytes_eq filename name)) [
            | inr e ↦
                IsBackedAt-kept ops laws env dir s s' name (b.backed name ok)
                  (ground (
                    arith,
                    delete_registered-file_at ops laws env i url s (name ∷ resolve dir),
                    path_eq_ne {p = resolve i.storage_path} {q = name ∷ resolve dir}
                        (λ k. bytes_apart e (cc (sym at ∙ k))),
                  ))
                  (elim (delete_registered-row ops laws env i url s (env.download_prefix ++ name)
                    b.coherent d.url r) [
                      | inl k ↦ k
                      | inr (k, _, _) ↦
                          absurd (bytes_apart e (append_cancel env.download_prefix filename name k))
                    ])
            | inl e ↦
                subst (IsBackedAt ops laws env dir s') ((bytes_eq_iff filename name).0 e)
                  (elim (Bool-cases ((delete_registered ops env i url s).0.status == http_ok)) [
                    | inl k ↦
                        IsBackedAt-absent ops laws env dir s' filename
                          (delete_registered-gone ops laws env i url s ((==_iff _ http_ok).0 k))
                    | inr k ↦
                        elim (delete_registered-row ops laws env i url s url b.coherent d.url r) [
                          | inl m ↦
                              IsBackedAt-kept ops laws env dir s s' filename
                                (b.backed filename safe)
                                (ground (
                                  arith,
                                  delete_registered-file_at ops laws env i url s
                                      (filename ∷ resolve dir),
                                ))
                                m
                          | inr (_, m, _) ↦ IsBackedAt-absent ops laws env dir s' filename m
                        ]
                  ])
          ];
        }

    -- Over a lawful store and a storage directory that ends in a slash, a removal keeps the
    -- invariant of files and rows on every request, whatever fails on disk or in the store.
    pub handle_delete-IsBacked :
        (r : DeleteRequest) (s : Service S)
        → IsBacked ops laws env dir s
        → IsBacked ops laws env dir (handle_delete ops env r s).1
    handle_delete-IsBacked r s b = elim (Sum-cases (check_delete r)) [
      | inl (x, e) ↦
          subst (IsBacked ops laws env dir)
            (sym (ap (λ y. y.1) (handle_delete_refused ops laws env r s x e).0)) b
      | inr (filename, e) ↦
          let url = env.download_prefix ++ filename in
          elim (Option-cases (get_info ops url s.manager).0) [
            | inl f ↦
                subst (IsBacked ops laws env dir)
                  (sym (handle_delete-none ops laws env r s filename e f).1)
                  (looked_up ops laws env dir s url b)
            | inr (i, f) ↦
                let safe = check_delete_safe r filename e in
                let found = (get_info_sound ops laws url s.manager i b.coherent f).0 in
                let (content, _, d) = b.backed filename safe i found in
                subst (IsBacked ops laws env dir)
                  (sym (ap (λ y. y.1) (handle_delete-some ops laws env r s filename i e f)))
                  (delete_registered-IsBacked filename content i
                    (record s { manager = (get_info ops url s.manager).1 }) safe d
                    (get_info-row ops laws url s.manager url ∙ found)
                    (looked_up ops laws env dir s url b))
          ]
    ]
