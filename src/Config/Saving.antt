-- ===== src/Config/Saving.antt =====
-- `save` of infrastructure/config/config_manager.py, and what a new manager then reads.
use sagittarius_engine.Prelude.{
  ◌⊎◌, inl, inr, ◌≡◌, ◌≢◌, refl, sym, ap, ◌∙◌, subst, Option, none, some, [], ◌∷◌, String,
  string_eq, Dict, get, put, keys, Distinct, All, get-put, ==_iff, arith,
}
use sagittarius_engine.Config.{
  Content, holds, not_json, not_text, Disk, Medium, writes, cannot_open, breaks_off, ConfigManager,
  Outcome, returned, no_writable_source, undecodable, os_error, not_encodable, read_json, update,
  existing, encode_all, dump, write_merged, write_over, write_dirty, save_to, save,
}
use sagittarius_engine.Config.Winner.{or_else, get-update}
use sagittarius_engine.Config.Reloading.{update-Distinct, update-All, reload, reload_put, reloaded}
use sagittarius_engine.Config.Encoding.{
  encoded, IsEncodable, IsStable, encode_all_lem, all_encodable, taken, stable-IsDict,
  not_text_only,
}

module _ {V : Type 0} (encode : V → Option V) (medium : String → Medium V) where
  -- A value that was set is read as JSON gives it back; any other stays.
  abbrev pub changed : Option V → Option V → Option V
  changed none old = old
  changed (some v) old = encode v

  abbrev pub IsText : Option (Content V) → Type 0
  IsText c = c ≢ some not_text

  -- What a call of `save` that came out as `r` has done.
  pub record Saves (disk : Disk V) (m : ConfigManager V) (path : String)
      (r : Disk V × ConfigManager V × Outcome) : Type 0 where
    pub succeeds :
        IsText (get path disk)
        → medium path ≡ writes
        → All (IsEncodable encode) m.dirty
        → r.2 ≡ returned
    pub rereads :
        r.2 ≡ returned
        → (key : String)
        → reloaded r.0 path key ≡ changed (get key m.dirty) (reloaded disk path key)
    pub clean : r.2 ≡ returned → r.1 ≡ record m { dirty = [] }
    pub unchanged : r.2 ≢ returned → r.1 ≡ m
    pub untouched : (r.2 ≡ undecodable) ⊎ (medium path ≡ cannot_open) → r.0 ≡ disk
    pub lost : r.2 ≡ not_encodable → (key : String) → reloaded r.0 path key ≡ none
    pub elsewhere : (other : String) → other ≢ path → get other r.0 ≡ get other disk

  module _ (disk : Disk V) (m : ConfigManager V) (path : String) where
    put_elsewhere :
        (c : Content V) (other : String)
        → other ≢ path
        → get other (put path c disk) ≡ get other disk
    put_elsewhere c other ne = ground (arith, get-put path other c disk, ==_iff path other)

    nothing_set : m.dirty ≡ [] → Saves disk m path (disk, m, returned)
    unfolding get
    nothing_set e = record {
      succeeds = λ t w a. refl;
      rereads = λ r key. ap (λ c. changed (get key c) (reloaded disk path key)) (sym e);
      clean = λ r. ap (λ c. record m { dirty = c }) e;
      unchanged = λ r. refl;
      untouched = λ r. refl;
      lost = λ r. absurd (cc);
      elsewhere = λ other ne. refl;
    }

    cannot_decode : existing (get path disk) ≡ none → Saves disk m path (disk, m, undecodable)
    cannot_decode e = record {
      succeeds = λ t w a. absurd (t (not_text_only encode (get path disk) e));
      rereads = λ r. absurd (cc);
      clean = λ r. absurd (cc);
      unchanged = λ r. refl;
      untouched = λ r. refl;
      lost = λ r. absurd (cc);
      elsewhere = λ other ne. refl;
    }

    not_opened : medium path ≡ cannot_open → Saves disk m path (disk, m, os_error)
    not_opened e = record {
      succeeds = λ t w a. absurd (cc);
      rereads = λ r. absurd (cc);
      clean = λ r. absurd (cc);
      unchanged = λ r. refl;
      untouched = λ r. refl;
      lost = λ r. absurd (cc);
      elsewhere = λ other ne. refl;
    }

    broken_off :
        (left : Content V)
        → medium path ≡ breaks_off left
        → Saves disk m path (put path left disk, m, os_error)
    broken_off left e = record {
      succeeds = λ t w a. absurd (cc);
      rereads = λ r. absurd (cc);
      clean = λ r. absurd (cc);
      unchanged = λ r. refl;
      untouched = λ r. elim r [ inl h ↦ absurd (cc) | inr h ↦ absurd (cc) ];
      lost = λ r. absurd (cc);
      elsewhere = λ other ne. put_elsewhere left other ne;
    }

    changed_value :
        (o b : Option V) → encoded encode b ≡ b → encoded encode (or_else o b) ≡ changed o b
    changed_value none b h = h
    changed_value (some v) b h = refl

    written_all :
        (old written : Dict String V)
        → Distinct (keys m.dirty)
        → IsStable encode (get path disk)
        → existing (get path disk) ≡ some old
        → encode_all encode (update old m.dirty) ≡ some written
        → (key : String)
        → reloaded (put path (holds written) disk) path key
          ≡ changed (get key m.dirty) (reloaded disk path key)
    unfolding read_json
    written_all old written d f e w key =
        let (distinct, able, value, stable) = taken encode (get path disk) old f e in
        let (same_keys, values) = encode_all_lem encode (update old m.dirty) written w in
        reload_put disk path key (holds written)
          (subst Distinct (sym same_keys) (update-Distinct old m.dirty distinct))
        ∙ values key
        ∙ ap (encoded encode) (get-update key old m.dirty d)
        ∙ changed_value (get key m.dirty) (get key old) (stable key)
        ∙ ap (changed (get key m.dirty))
            (sym (value key) ∙ sym (reload disk path key (stable-IsDict encode (get path disk) f)))

    module _ (d : Distinct (keys m.dirty)) (f : IsStable encode (get path disk))
        (old : Dict String V) (e : existing (get path disk) ≡ some old) where
      dumped :
          (o : Option (Dict String V))
          → encode_all encode (update old m.dirty) ≡ o
          → medium path ≡ writes
          → Saves disk m path (dump path o disk m)
      unfolding get
      dumped none w open_file = record {
        succeeds = λ t u a.
            let (distinct, able, value, stable) = taken encode (get path disk) old f e in
            let (written, fine) =
              all_encodable encode (update old m.dirty)
                (update-All (IsEncodable encode) old m.dirty able a) in
            absurd (cc);
        rereads = λ r. absurd (cc);
        clean = λ r. absurd (cc);
        unchanged = λ r. refl;
        untouched = λ r. elim r [ inl h ↦ absurd (cc) | inr h ↦ absurd (cc) ];
        lost = λ r key. reload_put disk path key not_json tt;
        elsewhere = put_elsewhere not_json;
      }
      dumped (some written) w open_file = record {
        succeeds = λ t u a. refl;
        rereads = λ r. written_all old written d f e w;
        clean = λ r. refl;
        unchanged = λ ne. absurd (ne refl);
        untouched = λ r. elim r [ inl h ↦ absurd (cc) | inr h ↦ absurd (cc) ];
        lost = λ r. absurd (cc);
        elsewhere = put_elsewhere (holds written);
      }

      merged_Saves :
          (b : Medium V)
          → medium path ≡ b
          → Saves disk m path (write_merged encode medium b path (update old m.dirty) disk m)
      merged_Saves writes h = dumped (encode_all encode (update old m.dirty)) refl h
      merged_Saves cannot_open h = not_opened h
      merged_Saves (breaks_off left) h = broken_off left h

    over_Saves :
        Distinct (keys m.dirty)
        → IsStable encode (get path disk)
        → (o : Option (Dict String V)) → existing (get path disk) ≡ o
        → Saves disk m path (write_over encode medium path o m.dirty disk m)
    over_Saves d f none e = cannot_decode e
    over_Saves d f (some old) e = merged_Saves d f old e (medium path) refl

    dirty_Saves :
        Distinct (keys m.dirty)
        → IsStable encode (get path disk)
        → (changes : Dict String V) → m.dirty ≡ changes
        → Saves disk m path (write_dirty encode medium path changes disk m)
    unfolding write_dirty
    dirty_Saves d f [] e = nothing_set e
    dirty_Saves d f (change ∷ changes) e =
        subst
          (λ c.
            Saves disk m path (write_over encode medium path (existing (get path disk)) c disk m))
          e (over_Saves d f (existing (get path disk)) refl)

  -- Without a writable file `save` raises `ValueError` and does nothing. With one that, if it holds
  -- JSON, holds a dict of values that JSON gives back as they are: `save` returns if the file's bytes
  -- are text, it can be written, and every value set since the last save can be encoded. When it
  -- returns, a new manager on the file finds for each key the value that was set, as JSON gives it
  -- back, and for the others what it found before, and nothing is left to save. When it raises, the
  -- manager is as it was; the file is, where its bytes are no text or it cannot be opened; a value that
  -- cannot be encoded loses all that the file held. No other file changes.
  pub save_lem :
      (disk : Disk V) (m : ConfigManager V)
      → Distinct (keys m.dirty)
      → (m.writable_path ≡ none → save encode medium disk m ≡ (disk, m, no_writable_source))
        × ((path : String)
            → m.writable_path ≡ some path
            → IsStable encode (get path disk)
            → Saves disk m path (save encode medium disk m))
  unfolding save save_to
  save_lem disk m d = (
    λ w. ap (λ o. save_to encode medium o disk m) w,
    λ path w f.
        subst (λ o. Saves disk m path (save_to encode medium o disk m)) (sym w)
          (dirty_Saves disk m path d f m.dirty refl),
  )
