-- ===== src/Storage/Meta/Coherent.antt =====
-- The table in memory never contradicts the store: src/server/DataManager.hpp.
use kama_asyn_log_system_clo.Base.{
  Option-cases, lookup, lookup-insert, lookup-erase, Bytes, bytes_eq_iff, All, All-imp, ◌≡◌, refl,
  sym, subst, ◌∙◌, inl, inr, true, false, none, some, List, [], ◌∷◌, arith,
}
use kama_asyn_log_system_clo.Storage.Meta.{
  StorageInfo, bytes_key, MetadataStore, DataManager, insert_info, update_info, delete_info,
  get_info, Call, insert_call, update_call, delete_call, get_call, run_call, run_calls, load_rows,
  new_data_manager, init_load, upsert_one_in_memory,
}
use kama_asyn_log_system_clo.Storage.Meta.Store.{IsLawful}

module _ {S : Type 0} (ops : MetadataStore S) (laws : IsLawful ops) where
  open laws use {row, row_url}

  -- What the table says of a key is the row of the store.
  abbrev pub IsCached : DataManager S → Type 0
  IsCached m =
      (k : Bytes) (i : StorageInfo) → lookup bytes_key k m.table ≡ some i → row m.store k ≡ some i

  -- What the table says of a key is the row of the store, and what is inserted goes to the store.
  pub record IsCoherent (m : DataManager S) : Type 0 where
    pub cached : IsCached m
    pub persists : m.need_persist ≡ true

  pub insert_info-IsCoherent :
      (info : StorageInfo) (m : DataManager S)
      → IsCoherent m
      → IsCoherent (insert_info ops info m).1
  unfolding insert_info
  insert_info-IsCoherent info m c = record {
    cached = λ k i h. ground (
      arith,
      c.persists,
      c.cached k i,
      laws.insert_true info m.store k,
      laws.insert_false info m.store k,
      lookup-insert bytes_key info.url k info m.table,
    );
    persists = ground (arith, c.persists);
  }

  pub update_info-IsCoherent :
      (info : StorageInfo) (m : DataManager S)
      → IsCoherent m
      → IsCoherent (update_info ops info m).1
  unfolding update_info
  update_info-IsCoherent info m c = record {
    cached = λ k i h. ground (
      arith,
      c.cached k i,
      laws.update_true info m.store k,
      laws.update_false info m.store k,
      lookup-insert bytes_key info.url k info m.table,
    );
    persists = ground (arith, c.persists);
  }

  pub delete_info-IsCoherent :
      (key : Bytes) (m : DataManager S) → IsCoherent m → IsCoherent (delete_info ops key m).1
  unfolding delete_info
  delete_info-IsCoherent key m c = record {
    cached = λ k i h. ground (
      arith,
      c.cached k i,
      laws.delete_true key m.store k,
      laws.delete_false key m.store k,
      lookup-erase bytes_key key k m.table,
    );
    persists = ground (arith, c.persists);
  }

  pub get_info-IsCoherent :
      (key : Bytes) (m : DataManager S) → IsCoherent m → IsCoherent (get_info ops key m).1
  unfolding get_info
  get_info-IsCoherent key m c = elim (Option-cases (lookup bytes_key key m.table)) [
    | inl miss ↦ elim (Option-cases (ops.get_one_by_url key m.store).0) [
      | inl e ↦ record {
        cached = λ k i h. ground (arith, c.cached k i, laws.get_keeps key m.store k);
        persists = ground (arith, c.persists);
      }
      | inr (r, e) ↦ record {
        cached = λ k i h. ground (
          arith,
          c.cached k i,
          laws.get_keeps key m.store k,
          laws.get_found key m.store {i = r} e,
          row_url m.store key {i = r},
          bytes_eq_iff r.url k,
          lookup-insert bytes_key r.url k r m.table,
        );
        persists = ground (arith, c.persists);
      }
    ]
    | inr (r, hit) ↦ ground (arith, c)
  ]

  load_rows-IsCached :
      (rows : List StorageInfo) (m : DataManager S)
      → All (λ i. row m.store i.url ≡ some i) rows
      → IsCached m
      → IsCached (load_rows ops rows m)
  unfolding load_rows
  load_rows-IsCached [] m _ old = old
  load_rows-IsCached (r ∷ rows) m (hr, hrows) old =
      load_rows-IsCached rows (upsert_one_in_memory ops r m) hrows (λ j i e.
        ground (arith, bytes_eq_iff r.url j, old j i, lookup-insert bytes_key r.url j r m.table))

  init_load-none :
      (m : DataManager S)
      → (ops.get_all m.store).0 ≡ none
      → (init_load ops m).1 ≡ record m { store = (ops.get_all m.store).1 }
  unfolding init_load
  init_load-none m e = ground arith

  init_load-some :
      (m : DataManager S) (rows : List StorageInfo)
      → (ops.get_all m.store).0 ≡ some rows
      → (init_load ops m).1 ≡ load_rows ops rows (record m { store = (ops.get_all m.store).1 })
  unfolding init_load
  init_load-some m rows e = ground arith

  init_load-IsCached : (m : DataManager S) → IsCached m → IsCached (init_load ops m).1
  init_load-IsCached m old = elim (Option-cases (ops.get_all m.store).0) [
    | inl e ↦
        subst IsCached (sym (init_load-none m e)) (λ k i h. laws.all_keeps m.store k ∙ old k i h)
    | inr (rows, e) ↦ subst IsCached (sym (init_load-some m rows e)) (
        load_rows-IsCached rows (record m { store = (ops.get_all m.store).1 })
          (All-imp (λ (i : StorageInfo). row m.store i.url ≡ some i) _
            (λ i h. laws.all_keeps m.store i.url ∙ h) rows (laws.all_found m.store e))
          (λ k i h. laws.all_keeps m.store k ∙ old k i h))
  ]

  -- The manager starts coherent, whether the rows could be loaded or not.
  pub new_data_manager-IsCoherent : (s : S) → IsCoherent (new_data_manager ops s)
  unfolding new_data_manager
  new_data_manager-IsCoherent s = record {
    cached =
        init_load-IsCached (record { store = s; table = []; need_persist = false })
          (λ k i h. unfold lookup in cc);
    persists = refl;
  }

  run_call-IsCoherent :
      (c : Call) (m : DataManager S) → IsCoherent m → IsCoherent (run_call ops c m)
  unfolding run_call
  run_call-IsCoherent (insert_call i) m h = insert_info-IsCoherent i m h
  run_call-IsCoherent (update_call i) m h = update_info-IsCoherent i m h
  run_call-IsCoherent (delete_call k) m h = delete_info-IsCoherent k m h
  run_call-IsCoherent (get_call k) m h = get_info-IsCoherent k m h

  run_calls-keep :
      (cs : List Call) (m : DataManager S) → IsCoherent m → IsCoherent (run_calls ops cs m)
  unfolding run_calls
  run_calls-keep [] m h = h
  run_calls-keep (c ∷ cs) m h = run_calls-keep cs (run_call ops c m) (run_call-IsCoherent c m h)

  -- Over a lawful store, from the start of the service on, after any calls and whatever the store
  -- refused, everything in the table is a row of the store, and inserts are persisted.
  pub run_calls-IsCoherent :
      (cs : List Call) (s : S) → IsCoherent (run_calls ops cs (new_data_manager ops s))
  run_calls-IsCoherent cs s =
      run_calls-keep cs (new_data_manager ops s) (new_data_manager-IsCoherent s)
