-- ===== src/Sql/Query.antt =====
-- The query for an informer: db_dump/requests/getInformer.sql, which `DataBase::openDb` stores as
-- `informerSqlStr`, and `Core_DataBase::getInformer`.
use worker_informer.Base.{ℕ, [], ◌∷◌, Bytes, codes, written}
use worker_informer.Sql.Format.{Printf, text, with_quoted}

-- `CMD_SIZE`
abbrev pub cmd_size : ℕ
cmd_size = 2621440

unfoldable pub query_head : Bytes
query_head = written (
    codes "SELECT \tinf.id,\n    inf.guid,\n    inf.title,\n    inf.account,\n"
    ∷ codes "    inf.domain,\n\tinf.capacity,\n\tinf.auto_reload,\n    inf.blinking,\n"
    ∷ codes "    inf.shake,\n    inf.blinking_reload,\n    inf.shake_reload,\n"
    ∷ codes "    inf.shake_mouse,\n\tinf.teasersCss,\n    inf.headerHtml,\n"
    ∷ codes "    inf.footerHtml,\n    inf.range_short_term,\n\tinf.range_long_term,\n"
    ∷ codes "\tinf.range_context,\n\tinf.range_search,\n\tinf.retargeting_capacity,\n"
    ∷ codes "    inf.valid,\n    inf.social_branch,\n    inf.user_code,\n"
    ∷ codes "    inf.html_notification,\n    inf.place_branch,\n"
    ∷ codes "    inf.retargeting_branch,\n    inf.rating_division\n"
    ∷ codes "FROM Informer AS inf INDEXED BY idx_Informer_guid\nWHERE inf.guid="
    ∷ [])

module _ {Real : Type 0} (printf : Printf Real) where
  unfoldable pub query_whole : Bytes → Bytes
  unfolding with_quoted query_head
  query_whole guid =
      with_quoted printf printf.percent_s ((text query_head ∷ [], guid) ∷ [])
        (text (codes "\nLIMIT 1;\n") ∷ [])

  -- What is run: as much as the buffer holds.
  unfoldable pub query_text : Bytes → Bytes
  unfolding query_whole
  query_text guid = printf.fill cmd_size (query_whole guid)
