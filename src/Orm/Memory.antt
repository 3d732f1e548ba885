-- ===== src/Orm/Memory.antt =====
-- An implementation of the interface: a table is its list of rows, and never fails.
use photon_monitoring.Base.{refl, true, none, List, [], ◌∷◌, ◌++◌, find?, select, upsert, adjust}
use photon_monitoring.Orm.{Gorm, IsDocumented, found, pick, drop_where}

abbrev pub memory : Gorm
memory = record {
  Table = λ R. List R;
  rows = λ t. t;
  up = λ t. true;
  first = λ q t. pick (find? q t);
  find = λ q t. found (select q t);
  save = λ q r t. (none, upsert q r t);
  create = λ r t. (none, t ++ r ∷ []);
  update = λ q f t. (none, adjust q f t);
  delete = λ q t. (none, drop_where q t);
  commit = λ before after. after;
  rollback = λ before after. before;
}

pub memory-IsDocumented : IsDocumented memory
memory-IsDocumented = record {
  first_up = λ q t h. refl;
  find_up = λ q t h. refl;
  save_up = λ q r t h. (refl, refl, refl);
  create_up = λ r t h. (refl, refl, refl);
  update_up = λ q f t h. (refl, refl, refl);
  delete_up = λ q t h. (refl, refl, refl);
  commit_up = λ before after h. (refl, refl);
  rollback_up = λ before after h. (refl, refl);
}
