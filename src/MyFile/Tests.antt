-- ===== src/MyFile/Tests.antt =====
-- The file of 1017/myfile.c on its own messages.
use os_net_work_code.Base.{concat, ◌≡◌, refl, some}
use os_net_work_code.Udp.Server.{same_string}
use os_net_work_code.MyFile.Defs.{
  opened_file, messages, put_all, closed, main, fopen_, fresh, fputs_, line_flush, place, fclose_,
  fflush_,
}
use os_net_work_code.MyFile.Stream.{bounded, put_all-concat}

put_all_example : closed (put_all messages (opened_file 3)) ≡ bounded (concat messages)
put_all_example = put_all-concat 3 messages refl

main_content : main (some 3) ≡ some (0, concat messages)
unfolding main fopen_ same_string fresh closed put_all fputs_ line_flush place fclose_ fflush_
main_content = refl
